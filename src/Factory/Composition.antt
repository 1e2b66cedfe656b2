-- ===== src/Factory/Composition.antt =====
-- The devices that a stand is composed of: from its roles, by one object for each physical device.
use mathlib.Core.Path.{subst}
use pytest_hardware_template.Prelude.{
  String, Bool, true, Option, none, some, [], ◌∷◌, ◌≡◌, ◌⊎◌, inl, inr, refl, sym, ap, ◌∙◌, ◌==◌,
  ◌&&◌, is_some, All, any, length, lookup, insert, lookup-insert, Dict, ok, chain-ok, ok-injective,
  arith, eq_iff, eq_refl, Bool-cases,
}
use pytest_hardware_template.Stand.{Device, TestStand}
use pytest_hardware_template.Inventory.{StandConfig, Inventory}
use pytest_hardware_template.Inventory.Sources.{IsWithin}
use pytest_hardware_template.Factory.{
  Settings, Composed, build, place, compose, create_composed, create_stand,
}
use pytest_hardware_template.Factory.Physical.{
  IsBuilt, nothing-IsBuilt, build-IsMade, insert-IsBuilt, lookup-insert_cases, lookup-insert_self,
  lookup-insert_other,
}

-- Some role of the dictionary names the device.
abbrev pub assigns : Dict String → (role device_name : String) → Bool
assigns roles role device_name = any (λ r. r.0 == role && r.1 == device_name) roles

assigned :
    (role name r : String) (roles : Dict String)
    → role ≡ r
    → assigns ((role, name) ∷ roles) r name ≡ true
assigned role name r roles h = ground (arith, eq_iff role r, eq_refl name)

assigned_later :
    (role name r n : String) (roles : Dict String)
    → assigns roles r n ≡ true
    → assigns ((role, name) ∷ roles) r n ≡ true
assigned_later role name r n roles h = ground arith

module _ (inventory : Inventory) (settings : Settings) where
  -- One step: the role has an object, which is the one of the physical device.
  pub record IsPlaced (role name : String) (before after : Composed) : Type 0 where
    pub object : Device
    pub by_role_eq : after.by_role ≡ insert role object before.by_role
    pub held : lookup name after.physical ≡ some object
    pub grown : IsWithin before.physical after.physical
    pub built : IsBuilt inventory settings after.physical

  insert-IsWithin :
      (name : String) (e : Device) (physical : Dict Device)
      → lookup name physical ≡ none
      → IsWithin physical (insert name e physical)
  insert-IsWithin name e physical h n f l = elim (Bool-cases (name == n)) [
    | inl t ↦
        let same : name ≡ n = ground (arith, eq_iff name n) in
        let never : none ≡ some f = sym h ∙ ap (λ z. lookup z physical) same ∙ l in cc
    | inr d ↦ lookup-insert_other name n e physical d ∙ l
  ]

  place-IsPlaced :
      (role name : String) (o : Option Device) (before after : Composed)
      → lookup name before.physical ≡ o
      → IsBuilt inventory settings before.physical
      → place inventory settings role name o before ≡ ok after
      → IsPlaced role name before after
  unfolding place
  place-IsPlaced role name (some e) before after l b h =
      subst (IsPlaced role name before) (ok-injective h)
        (record { object = e; by_role_eq = refl; held = l; grown = λ n f k. k; built = b })
  place-IsPlaced role name none before after l b h =
      let (e, m, k) = chain-ok (build inventory settings (length before.physical) name) _ h in
      let (made, i) = build-IsMade inventory settings (length before.physical) name e m in
      subst (IsPlaced role name before) (ok-injective k) (record {
        object = e;
        by_role_eq = refl;
        held = lookup-insert_self name e before.physical;
        grown = insert-IsWithin name e before.physical l;
        built = insert-IsBuilt inventory settings name e before.physical l made i b;
      })

  -- The dictionaries of a stand. Each role of the configuration has an object; each object of a role is
  -- the one of a physical device to which the configuration assigns the role; and there is one object
  -- for each physical device, which is what the inventory says of it.
  pub record IsComposed (roles : Dict String) (before after : Composed) : Type 0 where
    pub total : All (λ r. is_some (lookup r.0 after.by_role) ≡ true) roles
    pub kept :
        (role : String)
        → is_some (lookup role before.by_role) ≡ true
        → is_some (lookup role after.by_role) ≡ true
    pub sound :
        (role : String) (e : Device)
        → lookup role after.by_role ≡ some e
        → (lookup role before.by_role ≡ some e)
          ⊎ ((name : String) × (assigns roles role name ≡ true)
              × (lookup name after.physical ≡ some e))
    pub grown : IsWithin before.physical after.physical
    pub built : IsBuilt inventory settings after.physical

  place-total :
      (role name : String) (before after : Composed)
      → IsPlaced role name before after
      → is_some (lookup role after.by_role) ≡ true
  place-total role name before after p =
      ap (λ z. is_some (lookup role z)) p.by_role_eq
      ∙ ap is_some (lookup-insert_self role p.object before.by_role)

  place-kept :
      (role name : String) (before after : Composed) (r : String)
      → IsPlaced role name before after
      → is_some (lookup r before.by_role) ≡ true
      → is_some (lookup r after.by_role) ≡ true
  place-kept role name before after r p h =
      ap (λ z. is_some (lookup r z)) p.by_role_eq
      ∙ ap is_some (lookup-insert role r p.object before.by_role)
      ∙ ground arith

  place_sound :
      (role name : String) (before after : Composed) (r : String) (e : Device)
      → IsPlaced role name before after
      → lookup r after.by_role ≡ some e
      → (lookup r before.by_role ≡ some e) ⊎ ((role ≡ r) × (lookup name after.physical ≡ some e))
  place_sound role name before after r e p l =
      elim (lookup-insert_cases role r p.object e before.by_role
        (ap (lookup r) (sym p.by_role_eq) ∙ l)) [
          | inl (k, v) ↦ inr (k, p.held ∙ ap (λ z. some z) v)
          | inr (k, old) ↦ inl old
        ]

  compose-IsComposed :
      (roles : Dict String) (before after : Composed)
      → IsBuilt inventory settings before.physical
      → compose inventory settings roles before ≡ ok after
      → IsComposed roles before after
  unfolding compose
  compose-IsComposed [] before after b h = subst (IsComposed [] before) (ok-injective h) (record {
    total = tt;
    kept = λ role k. k;
    sound = λ role e l. inl l;
    grown = λ n f k. k;
    built = b;
  })
  compose-IsComposed ((role, name) ∷ roles) before after b h =
      let (next, p, k) =
        chain-ok (place inventory settings role name (lookup name before.physical) before) _ h in
      let placed = place-IsPlaced role name (lookup name before.physical) before next refl b p in
      let rest = compose-IsComposed roles next after placed.built k in
      record {
        total = (rest.kept role (place-total role name before next placed), rest.total);
        kept = λ r l. rest.kept r (place-kept role name before next r placed l);
        sound = λ r e l. elim (rest.sound r e l) [
          | inr (n, a, o) ↦ inr (n, assigned_later role name r n roles a, o)
          | inl old ↦ elim (place_sound role name before next r e placed old) [
            | inl older ↦ inl older
            | inr (same, l') ↦ inr (name, assigned role name r roles same, rest.grown name e l')
          ]
        ];
        grown = λ n f l. rest.grown n f (placed.grown n f l);
        built = rest.built;
      }

  abbrev pub no_objects : Composed
  no_objects = record { physical = []; by_role = [] }

  -- A stand that is created has the objects that its factory ended with: every role of the
  -- configuration has one; an object of a role is that of a physical device to which the
  -- configuration assigns the role; there is one object for each physical device, with the class, the
  -- model and the transport that the inventory and the settings give it, and different physical
  -- devices have different objects.
  pub create_stand-IsComposed :
      (config : StandConfig) (stand : TestStand)
      → create_stand inventory settings config ≡ ok stand
      → (composed : Composed) × (create_composed inventory settings config ≡ ok composed)
        × (stand.devices ≡ composed.by_role)
        × IsComposed config.devices no_objects composed
  unfolding create_stand create_composed
  create_stand-IsComposed config stand h =
      let (composed, c, k) = chain-ok (compose inventory settings config.devices no_objects) _ h in
      (
        composed,
        c,
        ap (λ z. z.devices) (sym (ok-injective k)),
        compose-IsComposed config.devices no_objects composed (nothing-IsBuilt inventory settings)
            c,
      )
