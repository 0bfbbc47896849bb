-- ===== src/Chat/Charges.antt =====
-- The ledger rows of src/routes/chat.ts: what each outcome charges, and from which pool.
use prism_control_plane.Prelude.{
  ℕ, ◌+◌, ◌-◌, ◌≡◌, ◌≢◌, ◌≤◌, ◌⊎◌, refl, sym, ap, ◌∙◌, true, false, inl, inr, String, Option, none,
  some, arith, pos, if◌then◌else◌,
}
use prism_control_plane.Prelude.Json.{Json}
use prism_control_plane.Prelude.Number.{integer}
use prism_control_plane.Store.Schema.{Db, PriceBasis, measured, estimated_output, unpriced}
use prism_control_plane.Store.Usage.{get_period}
use prism_control_plane.Balance.{remaining_allowance_micro_usd}
use prism_control_plane.Balance.Allocation.{allocate_charge_splits}
use prism_control_plane.Meter.{
  TokenUsage, MeterOutcome, metered, EstimateOutcome, estimated, meter_usage_object,
}
use prism_control_plane.Stream.{StreamSettlement, Termination, complete, cancelled, error}
use prism_control_plane.Chat.Context.{Ctx}
use prism_control_plane.Chat.Gates.{Admitted, allowance_spent}
use prism_control_plane.Chat.Spend.{
  Charge, charged, not_charged, usage_charge, estimate_charge, estimate_of, charge_by,
  settlement_charge, build_event, stream_unmetered_reason,
}

-- A row is metered, with no reason, or it charges nothing, has no token counts and says why.
pub record IsExplained (c : Charge) : Type 0 where
  pub free :
      c.metered ≡ false
      → (c.micro_usd ≡ 0) × (c.price_basis ≡ unpriced) × (c.unmetered_reason ≢ none)
  pub priced : c.metered ≡ true → (c.price_basis ≢ unpriced) × (c.unmetered_reason ≡ none)

charged-IsExplained :
    (basis : PriceBasis) (m : ℕ) (u : TokenUsage) (l : Option String)
    → basis ≢ unpriced
    → IsExplained (charged basis m u l)
charged-IsExplained basis m u l h = record { free = λ e. cc; priced = λ e. (h, refl) }

not_charged-IsExplained :
    (reason : String) (status : Option ℕ) (l : Option String)
    → IsExplained (not_charged reason status l)
not_charged-IsExplained reason status l = record {
  free = λ e. (refl, refl, λ f. cc);
  priced = λ e. cc;
}

abbrev charge_as : Option String → MeterOutcome → Charge
charge_as l (metered m u) = charged measured m u l
charge_as l (MeterOutcome.unmetered r) = not_charged "" none l

module _ (ctx : Ctx) (a : Admitted) (s : StreamSettlement) (l : Option String) where
  -- What a stream that ended as `t` with the usage object `u` charges.
  pub record IsCharged (u : Option Json) (t : Termination) (c : Charge) : Type 0 where
    pub by_usage :
        (usage : Json) (m : ℕ) (tokens : TokenUsage)
        → u ≡ some usage
        → meter_usage_object usage a.price ≡ metered m tokens
        → c ≡ charged measured m tokens l
    pub by_estimate :
        (m : ℕ) (tokens : TokenUsage)
        → u ≡ none
        → t ≡ cancelled
        → estimate_of ctx a s ≡ estimated m tokens
        → c ≡ charged estimated_output m tokens l
    pub only_if_cancelled : c.price_basis ≡ estimated_output → (u ≡ none) × (t ≡ cancelled)
    pub never_on_failure : u ≡ none → t ≢ cancelled → (c.micro_usd ≡ 0) × (c.metered ≡ false)
    pub metered_by :
        c.metered ≡ true
        → ((usage : Json) × (m : ℕ) × (tokens : TokenUsage) × (u ≡ some usage)
            × (meter_usage_object usage a.price ≡ metered m tokens)
            × (c ≡ charged measured m tokens l))
          ⊎ ((m : ℕ) × (tokens : TokenUsage) × (u ≡ none)
              × (t ≡ cancelled)
              × (estimate_of ctx a s ≡ estimated m tokens)
              × (c ≡ charged estimated_output m tokens l))
    pub explained : IsExplained c

  usage-IsCharged :
      (usage : Json) (t : Termination) (o : MeterOutcome)
      → meter_usage_object usage a.price ≡ o
      → IsCharged (some usage) t (usage_charge ctx a s l o)
  usage-IsCharged usage t (metered m tokens) e = record {
    by_usage = λ v n k f g.
        let same : usage ≡ v = ground arith in
        let both : metered m tokens ≡ metered n k =
          sym e ∙ ap (λ x. meter_usage_object x a.price) same ∙ g in
        ap (charge_as l) both;
    by_estimate = λ m k f. absurd (cc);
    only_if_cancelled = λ f. absurd (cc);
    never_on_failure = λ f. absurd (cc);
    metered_by = λ f. inl (usage, m, tokens, refl, e, refl);
    explained = charged-IsExplained measured m tokens l (λ f. cc);
  }
  usage-IsCharged usage t (MeterOutcome.unmetered reason) e = record {
    by_usage = λ v n k f g.
        let same : usage ≡ v = ground arith in
        let both : MeterOutcome.unmetered reason ≡ metered n k =
          sym e ∙ ap (λ x. meter_usage_object x a.price) same ∙ g in
        absurd (cc);
    by_estimate = λ m k f. absurd (cc);
    only_if_cancelled = λ f. absurd (cc);
    never_on_failure = λ f. absurd (cc);
    metered_by = λ f. absurd (cc);
    explained = not_charged-IsExplained _ (some 200) l;
  }

  estimate-IsCharged :
      (o : EstimateOutcome)
      → estimate_of ctx a s ≡ o
      → IsCharged none cancelled (estimate_charge ctx a s l o)
  estimate-IsCharged (estimated m tokens) e = record {
    by_usage = λ v n k f. absurd (cc);
    by_estimate = λ n k f g h. ground arith;
    only_if_cancelled = λ f. (refl, refl);
    never_on_failure = λ f g. absurd (g refl);
    metered_by = λ f. inr (m, tokens, refl, refl, e, refl);
    explained = charged-IsExplained estimated_output m tokens l (λ f. cc);
  }
  estimate-IsCharged (EstimateOutcome.unmetered reason) e = record {
    by_usage = λ v n k f. absurd (cc);
    by_estimate = λ n k f g h. ground arith;
    only_if_cancelled = λ f. (refl, refl);
    never_on_failure = λ f g. absurd (g refl);
    metered_by = λ f. absurd (cc);
    explained = not_charged-IsExplained _ (some 200) l;
  }

  nothing-IsCharged :
      (t : Termination)
      → t ≢ cancelled
      → IsCharged none t (not_charged (stream_unmetered_reason s none) (some 200) l)
  nothing-IsCharged t h = record {
    by_usage = λ v n k f. absurd (cc);
    by_estimate = λ n k f g. absurd (h g);
    only_if_cancelled = λ f. absurd (cc);
    never_on_failure = λ f g. (refl, refl);
    metered_by = λ f. absurd (cc);
    explained = not_charged-IsExplained _ (some 200) l;
  }

  charge_by-IsCharged :
      (u : Option Json) (t : Termination) → IsCharged u t (charge_by ctx a s l u t)
  charge_by-IsCharged (some usage) t =
      usage-IsCharged usage t (meter_usage_object usage a.price) refl
  charge_by-IsCharged none cancelled = estimate-IsCharged (estimate_of ctx a s) refl
  charge_by-IsCharged none complete = nothing-IsCharged complete (λ e. cc)
  charge_by-IsCharged none error = nothing-IsCharged error (λ e. cc)

-- What a streamed request is charged: by its usage object where that prices; by the estimate from the
-- bytes where the client hung up before one came and the estimate prices, and only then; nothing where
-- the stream failed or ended without one. A row is metered only by a usage object or an estimate that
-- prices, for just that charge, and says which; one that is not metered charges nothing and says why.
pub settlement_charge-IsCharged :
    (ctx : Ctx) (a : Admitted) (s : StreamSettlement) (l : Option String)
    → IsCharged ctx a s l s.usage s.termination (settlement_charge ctx a s l)
unfolding settlement_charge
settlement_charge-IsCharged ctx a s l = charge_by-IsCharged ctx a s l s.usage s.termination

-- What is left of the account's monthly allowance in a database.
abbrev pub allowance_left : Ctx → Admitted → Db → ℕ
allowance_left ctx a db =
    a.plan.monthly_included_micro_usd - allowance_spent (get_period a.account.id ctx.period_key db)

-- A ledger row carries its charge without loss: what is metered is split over the allowance, as far
-- as that goes when the row is made, and the credit, which is touched only once the allowance is used
-- up; what is not metered is taken from neither.
pub build_event_splits :
    (ctx : Ctx) (a : Admitted) (id : String) (c : Charge) (db : Db)
    → let e = build_event ctx a id c db in
      (e.micro_usd ≡ c.micro_usd)
      × (e.metered ≡ c.metered)
      × (e.from_allowance_micro_usd + e.from_credit_micro_usd
          ≡ (if c.metered then c.micro_usd else 0))
      × (e.from_allowance_micro_usd ≤ allowance_left ctx a db)
      × ((e.from_credit_micro_usd ≡ 0) ⊎ (e.from_allowance_micro_usd ≡ allowance_left ctx a db))
unfolding build_event remaining_allowance_micro_usd
build_event_splits ctx a id c db =
    let split =
      allocate_charge_splits c.micro_usd (integer (pos a.plan.monthly_included_micro_usd))
        (integer (pos (allowance_spent (get_period a.account.id ctx.period_key db)))) in
    ground (arith, split)
