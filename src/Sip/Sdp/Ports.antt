-- ===== src/Sip/Sdp/Ports.antt =====
-- The port that `getPort` returns.
use openai_gate.Base.{
  ℕ, zero, suc, ◌+◌, ◌-◌, ◌*◌, ◌≤◌, ◌<◌, ◌≡◌, refl, ◌⊎◌, inl, inr, Bool, true, false, Option, none,
  some, subst, sym, arith, ltb, Bool-cases,
}
use mathlib.Core.Option.{some-injective}
use openai_gate.Sip.Sdp.{port_loop, get_port}

module _ (free : ℕ → Bool) (max_port : ℕ) where
  -- The port at which the loop stops: the first free one of every second port from `start` on.
  abbrev pub FirstFree : ℕ → ℕ → Type 0
  FirstFree start p =
      (i : ℕ) × (p ≡ start + 2 * i)
      × (p < max_port)
      × (free p ≡ true)
      × ((j : ℕ) → j < i → free (start + 2 * j) ≡ false)

  -- None of every second port from `start` on is free.
  abbrev pub AllTaken : ℕ → Type 0
  AllTaken start = (j : ℕ) → start + 2 * j < max_port → free (start + 2 * j) ≡ false

  AllTaken-cons : (start : ℕ) → free start ≡ false → AllTaken (start + 2) → AllTaken start
  AllTaken-cons start taken all zero h = ground (arith, taken)
  AllTaken-cons start taken all (suc j) h =
      let shift : start + 2 * suc j ≡ start + 2 + 2 * j = omega arith in
      rw shift (all j (omega (arith, h)))

  FirstFree-cons : (start p : ℕ) → free start ≡ false → FirstFree (start + 2) p → FirstFree start p
  FirstFree-cons start p taken (i, place, low, is_free, earlier) =
      (suc i, omega (arith, place), low, is_free, before)
    where
      before : (j : ℕ) → j < suc i → free (start + 2 * j) ≡ false
      before zero h = ground (arith, taken)
      before (suc j) h =
          let shift : start + 2 * suc j ≡ start + 2 + 2 * j = omega arith in
          rw shift (earlier j (omega (arith, h)))

  abbrev Outcome : ℕ → Option ℕ → Type 0
  Outcome start r = ((p : ℕ) × (r ≡ some p) × FirstFree start p) ⊎ ((r ≡ none) × AllTaken start)

  port_loop_lem :
      (f start : ℕ) → max_port - start ≤ f → Outcome start (port_loop f free max_port start)
  unfolding port_loop
  port_loop_lem zero start h = inr (refl, λ j g. absurd (omega arith))
  port_loop_lem (suc f) start h = elim (Bool-cases (ltb start max_port)) [
    | inr past ↦ inr (rw past refl, λ j g. absurd (ground arith))
    | inl inside ↦ elim (Bool-cases (free start)) [
      | inl open_here ↦ inl (
        start,
        ground arith,
        (0, omega arith, ground arith, open_here, λ j g. absurd (omega arith)),
      )
      | inr taken ↦ elim (port_loop_lem f (start + 2) (ground arith)) [
        | inl (p, hit, place) ↦ inl (p, ground arith, FirstFree-cons start p taken place)
        | inr (miss, all) ↦ inr (ground arith, AllTaken-cons start taken all)
      ]
    ]
  ]

  -- `getPort` returns the first free one of every second port from `min_port` on and below
  -- `max_port`; when all of them are taken, it returns `min_port`.
  pub get_port_lem :
      (min_port : ℕ)
      → FirstFree min_port (get_port free min_port max_port)
        ⊎ ((get_port free min_port max_port ≡ min_port) × AllTaken min_port)
  unfolding get_port
  get_port_lem min_port =
      chosen (port_loop (max_port - min_port) free max_port min_port)
        (port_loop_lem (max_port - min_port) min_port (omega arith))
    where
      chosen :
          (r : Option ℕ)
          → Outcome min_port r
          → let p : ℕ = elim r [ none ↦ min_port | some port ↦ port ] in
            FirstFree min_port p ⊎ ((p ≡ min_port) × AllTaken min_port)
      chosen none (inl (p, hit, place)) = absurd (ground arith)
      chosen none (inr (miss, all)) = inr (refl, all)
      chosen (some q) (inl (p, hit, place)) =
          inl (subst (FirstFree min_port) (sym (some-injective _ _ hit)) place)
      chosen (some q) (inr (miss, all)) = absurd (ground arith)
