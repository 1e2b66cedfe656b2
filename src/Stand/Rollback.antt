-- ===== src/Stand/Rollback.antt =====
-- The calls that connecting and closing a stand make.
use mathlib.Core.List.{append-nil, append_assoc}
use mathlib.Core.Path.{subst}
use pytest_hardware_template.Prelude.{
  ℕ, suc, ◌+◌, Option, none, some, List, [], ◌∷◌, ◌++◌, reverse, map, length, ◌≡◌, ◌⊎◌, inl, inr,
  refl, arith, Option-cases, ◌∙◌, sym, ap,
}
use pytest_hardware_template.Stand.{
  Device, Call, connect, close, Exception, Transports, TestStand, Effect, unique_devices,
  close_each, roll_back, rolled, connect_each, connect_stand, close_all, close_stand, values,
  first_of,
}
use pytest_hardware_template.Stand.Roles.{
  first_places, IsRoster, unique_devices-first_places, unique_devices-IsRoster,
}

length-snoc : {A : Type 0} (a : A) (l : List A) → length (l ++ a ∷ []) ≡ suc (length l)
length-snoc a [] = refl
length-snoc a (b ∷ l) = ap suc (length-snoc a l)

module _ (transports : Transports) where
  close_all-calls :
      (ds : List Device) (e : Option Exception) (calls : List Call)
      → (close_all transports ds e calls).calls ≡ calls ++ map close ds
  unfolding close_all
  close_all-calls [] e calls = sym (append-nil calls)
  close_all-calls (d ∷ ds) e calls =
      close_all-calls ds _ (calls ++ close d ∷ [])
      ∙ append_assoc calls (close d ∷ []) (map close ds)

  -- The first exception of these calls, the first of which has this number.
  abbrev pub first_raised : ℕ → List Call → Option Exception
  first_raised n [] = none
  first_raised n (c ∷ cs) = first_of transports (transports n c) (first_raised (suc n) cs)

  first_of_assoc :
      (a b c : Option Exception)
      → first_of transports (first_of transports a b) c
        ≡ first_of transports a (first_of transports b c)
  first_of_assoc none b c = refl
  first_of_assoc (some x) b c = refl

  close_all-raised :
      (ds : List Device) (e : Option Exception) (calls : List Call)
      → (close_all transports ds e calls).raised
        ≡ first_of transports e (first_raised (length calls) (map close ds))
  unfolding close_all
  close_all-raised [] none calls = refl
  close_all-raised [] (some x) calls = refl
  close_all-raised (d ∷ ds) e calls =
      close_all-raised ds _ (calls ++ close d ∷ [])
      ∙ rw (length-snoc (close d) calls) (first_of_assoc e (transports (length calls) (close d)) _)

  -- Closing a stand closes the devices of its roles, each once, in the reverse of the order of their
  -- first roles, whatever the calls raise; the first exception of these calls is raised behind them.
  pub close_stand-calls :
      (stand : TestStand) (calls : List Call)
      → let ds = first_places (values stand.devices) in
        let r = close_stand transports stand calls in
        IsRoster stand ds
        × (r.calls ≡ calls ++ map close (reverse ds))
        × (r.raised ≡ first_raised (length calls) (map close (reverse ds)))
  unfolding close_stand
  close_stand-calls stand calls =
      subst
        (λ ds.
          IsRoster stand ds
          × ((close_stand transports stand calls).calls ≡ calls ++ map close (reverse ds))
          × ((close_stand transports stand calls).raised
              ≡ first_raised (length calls) (map close (reverse ds))))
        (unique_devices-first_places stand)
        (
          unique_devices-IsRoster stand,
          close_all-calls (reverse (unique_devices stand)) none calls,
          close_all-raised (reverse (unique_devices stand)) none calls,
        )

  module _ (closes : (n : ℕ) (d : Device) → transports n (close d) ≡ none) where
    close_each-calls :
        (ds : List Device) (calls : List Call)
        → close_each transports ds calls ≡ (calls ++ map close ds, none)
    unfolding close_each
    close_each-calls [] calls = ground (arith, append-nil calls)
    close_each-calls (d ∷ ds) calls = rw (closes (length calls) d) (
        close_each-calls ds (calls ++ close d ∷ [])
        ∙ ap (λ (c : List Call). (c, none)) (append_assoc calls (close d ∷ []) (map close ds)))

module _ (transports : Transports) where
  -- None of the connections, the first of which is the call with this number, raises.
  abbrev pub AreAccepted : ℕ → List Device → Type 0
  AreAccepted n [] = Unit
  AreAccepted n (d ∷ ds) = (transports n (connect d) ≡ none) × AreAccepted (suc n) ds

  -- The exception of the first device that fails is raised, behind it no device is connected, and
  -- the devices before it are closed in reverse order.
  pub record RolledBack (connected ds : List Device) (calls : List Call) (r : Effect) : Type 0 where
    pub before : List Device
    pub failing : Device
    pub after : List Device
    pub error : Exception
    pub split_eq : ds ≡ before ++ failing ∷ after
    pub accepted : AreAccepted (length calls) before
    pub failed : transports (length calls + length before) (connect failing) ≡ some error
    pub raised_eq : r.raised ≡ some error
    pub calls_eq :
        r.calls
        ≡ calls
          ++ (map connect (before ++ failing ∷ []) ++ map close (reverse (connected ++ before)))

  abbrev pub Connected : List Device → List Device → List Call → Effect → Type 0
  Connected connected ds calls r =
      (AreAccepted (length calls) ds × (r.raised ≡ none) × (r.calls ≡ calls ++ map connect ds))
      ⊎ RolledBack connected ds calls r

  Connected-cons :
      (d : Device) (ds connected : List Device) (calls : List Call) (r : Effect)
      → transports (length calls) (connect d) ≡ none
      → Connected (connected ++ d ∷ []) ds (calls ++ connect d ∷ []) r
      → Connected connected (d ∷ ds) calls r
  Connected-cons d ds connected calls r fine (inl (f, a, b)) = inl (
    (fine, subst (λ n. AreAccepted n ds) (length-snoc (connect d) calls) f),
    a,
    b ∙ append_assoc calls (connect d ∷ []) (map connect ds),
  )
  Connected-cons d ds connected calls r fine (inr b) = inr (record {
    before = d ∷ b.before;
    failing = b.failing;
    after = b.after;
    error = b.error;
    split_eq = ap (λ l. d ∷ l) b.split_eq;
    accepted =
        (fine, subst (λ n. AreAccepted n b.before) (length-snoc (connect d) calls) b.accepted);
    failed =
        ap (λ n. transports n (connect b.failing)) (omega (arith, length-snoc (connect d) calls))
        ∙ b.failed;
    raised_eq = b.raised_eq;
    calls_eq =
        b.calls_eq
        ∙ append_assoc calls (connect d ∷ []) _
        ∙ ap
            (λ l.
              calls
              ++ (connect d ∷ map connect (b.before ++ b.failing ∷ []) ++ map close (reverse l)))
            (append_assoc connected (d ∷ []) b.before);
  })

  connect_each_accepted :
      (d : Device) (ds connected : List Device) (calls : List Call)
      → transports (length calls) (connect d) ≡ none
      → connect_each transports (d ∷ ds) connected calls
        ≡ connect_each transports ds (connected ++ d ∷ []) (calls ++ connect d ∷ [])
  unfolding connect_each
  connect_each_accepted d ds connected calls h = rw h refl

  connect_each_refused :
      (d : Device) (ds connected : List Device) (calls : List Call) (x : Exception)
      → transports (length calls) (connect d) ≡ some x
      → connect_each transports (d ∷ ds) connected calls
        ≡ roll_back transports connected x (calls ++ connect d ∷ [])
  unfolding connect_each
  connect_each_refused d ds connected calls x h = rw h refl

  module _ (closes : (n : ℕ) (d : Device) → transports n (close d) ≡ none) where
    roll_back-Connected :
        (d : Device) (ds connected : List Device) (calls : List Call) (x : Exception)
        → transports (length calls) (connect d) ≡ some x
        → Connected connected
            (d ∷ ds)
            calls
            (roll_back transports connected x (calls ++ connect d ∷ []))
    unfolding roll_back
    roll_back-Connected d ds connected calls x failed =
        subst (λ r. Connected connected (d ∷ ds) calls (rolled transports x r))
          (sym (close_each-calls transports closes (reverse connected) (calls ++ connect d ∷ [])))
          (inr (record {
            before = [];
            failing = d;
            after = ds;
            error = x;
            split_eq = refl;
            accepted = tt;
            failed = ap (λ n. transports n (connect d)) (omega arith) ∙ failed;
            raised_eq = refl;
            calls_eq =
                append_assoc calls (connect d ∷ []) _
                ∙ ap (λ l. calls ++ (connect d ∷ map close (reverse l)))
                    (sym (append-nil connected));
          }))

    connect_each-Connected :
        (ds connected : List Device) (calls : List Call)
        → Connected connected ds calls (connect_each transports ds connected calls)
    unfolding connect_each
    connect_each-Connected [] connected calls = inl (tt, refl, sym (append-nil calls))
    connect_each-Connected (d ∷ ds) connected calls =
        elim (Option-cases (transports (length calls) (connect d))) [
          | inl fine ↦
              subst (Connected connected (d ∷ ds) calls)
                (sym (connect_each_accepted d ds connected calls fine))
                (Connected-cons d ds connected calls _ fine
                  (connect_each-Connected ds (connected ++ d ∷ []) (calls ++ connect d ∷ [])))
          | inr (x, failed) ↦
              subst (Connected connected (d ∷ ds) calls)
                (sym (connect_each_refused d ds connected calls x failed))
                (roll_back-Connected d ds connected calls x failed)
        ]

    -- If no `close` raises, then connecting a stand has one of two outcomes. No `connect` raises: the
    -- devices of the stand's roles are connected, each once and in the order of their first roles,
    -- and nothing is raised. Or the `connect` of a device raises, and none before it: its exception
    -- is raised, no device behind it is connected, and the devices before it, and no others, are
    -- closed in reverse order.
    pub connect_stand-Connected :
        (stand : TestStand) (calls : List Call)
        → let ds = first_places (values stand.devices) in
          IsRoster stand ds × Connected [] ds calls (connect_stand transports stand calls)
    unfolding connect_stand
    connect_stand-Connected stand calls =
        subst
          (λ ds. IsRoster stand ds × Connected [] ds calls (connect_stand transports stand calls))
          (unique_devices-first_places stand)
          (unique_devices-IsRoster stand, connect_each-Connected (unique_devices stand) [] calls)
