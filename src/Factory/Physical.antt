-- ===== src/Factory/Physical.antt =====
-- The objects that are built for the physical devices of a stand.
use mathlib.Core.Path.{subst}
use pytest_hardware_template.Prelude.{
  ℕ, suc, ◌<◌, String, false, Option, none, some, [], ◌∷◌, ◌≡◌, ◌⊎◌, inl, inr, refl, sym, ap, ◌∙◌,
  ◌==◌, length, lookup, insert, lookup-insert, Dict, ok, chain-ok, ok-injective, arith, eq_iff,
  eq_refl, Bool-cases,
}
use pytest_hardware_template.Stand.{Device}
use pytest_hardware_template.Inventory.{DeviceConfig, Inventory}
use pytest_hardware_template.Factory.{
  Settings, FactoryError, needed, create_transport, device_type, create_device, build, no_device,
}

needed-some :
    {A : Type 0} (error : FactoryError) (o : Option A) (a : A) → needed error o ≡ ok a → o ≡ some a
needed-some error none a h = cc
needed-some error (some b) a h = ap (λ z. some z) (ok-injective h)

-- What an insertion does to a lookup, by whether the key is the one inserted
pub lookup-insert_cases :
    {V : Type 0} (k j : String) (v w : V) (d : Dict V)
    → lookup j (insert k v d) ≡ some w
    → ((k ≡ j) × (v ≡ w)) ⊎ (((k == j) ≡ false) × (lookup j d ≡ some w))
lookup-insert_cases k j v w d h =
    let i = sym (lookup-insert k j v d) ∙ h in
    elim (Bool-cases (k == j)) [
      | inl t ↦ inl (ground (arith, eq_iff k j), ground arith)
      | inr f ↦ inr (f, ground arith)
    ]

pub lookup-insert_self :
    {V : Type 0} (k : String) (v : V) (d : Dict V) → lookup k (insert k v d) ≡ some v
lookup-insert_self k v d = lookup-insert k k v d ∙ ground (arith, eq_refl k)

pub lookup-insert_other :
    {V : Type 0} (k j : String) (v : V) (d : Dict V)
    → (k == j) ≡ false
    → lookup j (insert k v d) ≡ lookup j d
lookup-insert_other k j v d h = lookup-insert k j v d ∙ ground arith

length-insert :
    {V : Type 0} (k : String) (v : V) (d : Dict V)
    → lookup k d ≡ none
    → length (insert k v d) ≡ suc (length d)
unfolding lookup insert
length-insert k v [] h = refl
length-insert k v ((j, w) ∷ d) h = ground (arith, length-insert k v d)

module _ (inventory : Inventory) (settings : Settings) where
  -- The object is what the inventory says of the physical device.
  pub record IsMade (device_name : String) (e : Device) : Type 0 where
    pub config : DeviceConfig
    pub config_eq : lookup device_name inventory.devices ≡ some config
    pub transport_eq : create_transport settings config.transport ≡ ok e.transport
    pub class_eq : device_type config.type ≡ ok e.class
    pub model_eq : e.model ≡ config.model

  -- Each name has one object, and different names have different objects.
  pub record IsBuilt (physical : Dict Device) : Type 0 where
    pub made : (name : String) (e : Device) → lookup name physical ≡ some e → IsMade name e
    pub counted :
        (name : String) (e : Device) → lookup name physical ≡ some e → e.identity < length physical
    pub distinct :
        (n m : String) (e f : Device)
        → lookup n physical ≡ some e
        → lookup m physical ≡ some f
        → e.identity ≡ f.identity
        → n ≡ m

  pub nothing-IsBuilt : IsBuilt []
  unfolding lookup
  nothing-IsBuilt = record {
    made = λ n e h. cc;
    counted = λ n e h. cc;
    distinct = λ n m e f h k i. cc;
  }

  pub build-IsMade :
      (identity : ℕ) (name : String) (e : Device)
      → build inventory settings identity name ≡ ok e
      → IsMade name e × (e.identity ≡ identity)
  unfolding build create_device
  build-IsMade identity name e h =
      let (config, a, h') =
        chain-ok (needed (no_device name) (lookup name inventory.devices)) _ h in
      let (transport, b, h'') = chain-ok (create_transport settings config.transport) _ h' in
      let (class, c, k) = chain-ok (device_type config.type) _ h'' in
      let same = ok-injective k in
      (
        record {
          config = config;
          config_eq = needed-some _ _ config a;
          transport_eq = b ∙ ap (λ z. ok z.transport) same;
          class_eq = c ∙ ap (λ z. ok z.class) same;
          model_eq = ap (λ z. z.model) (sym same);
        },
        ap (λ z. z.identity) (sym same),
      )

  pub insert-IsBuilt :
      (name : String) (e : Device) (physical : Dict Device)
      → lookup name physical ≡ none
      → IsMade name e
      → e.identity ≡ length physical
      → IsBuilt physical
      → IsBuilt (insert name e physical)
  insert-IsBuilt name e physical h m i b = record {
    made = λ n f l. elim (lookup-insert_cases name n e f physical l) [
      | inl (k, v) ↦ subst (λ z. IsMade z f) k (subst (IsMade name) v m)
      | inr (k, old) ↦ b.made n f old
    ];
    counted = λ n f l. elim (lookup-insert_cases name n e f physical l) [
      | inl (k, v) ↦ omega (arith, i, ap (λ z. z.identity) v, length-insert name e physical h)
      | inr (k, old) ↦ omega (arith, b.counted n f old, length-insert name e physical h)
    ];
    distinct = λ n n' f g l l' same. elim (lookup-insert_cases name n e f physical l) [
      | inl (k, v) ↦ elim (lookup-insert_cases name n' e g physical l') [
        | inl (k', v') ↦ sym k ∙ k'
        | inr (k', old) ↦
            absurd (omega (arith, i, same, ap (λ z. z.identity) v, b.counted n' g old))
      ]
      | inr (k, old) ↦ elim (lookup-insert_cases name n' e g physical l') [
        | inl (k', v) ↦ absurd (omega (arith, i, same, ap (λ z. z.identity) v, b.counted n f old))
        | inr (k', old') ↦ b.distinct n n' f g old old' same
      ]
    ];
  }
