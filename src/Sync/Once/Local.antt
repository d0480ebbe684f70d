-- ===== src/Sync/Once/Local.antt =====
-- sync/src/once.rs: what the place of one thread says about the shared status and data, and that steps
-- keep it.
use bare_metal_blasterball.Base.{
  ◌≡◌, ◌≢◌, ◌⊎◌, refl, ap, Bool, true, false, Option, none, some, ok, arith,
}
use bare_metal_blasterball.Sync.Once.Defs.{
  complete, running, incomplete, status_no, Once, Place, outside, loaded, got, aborted, calling,
  failed, computed, written, completed, matched, returned, undefined,
}

-- A thread that set `Running`, and has not yet set another status.
abbrev pub owns {ℓ κ} : {T : Type ℓ} {E : Type κ} → Place T E → Bool
owns calling = true
owns (failed e) = true
owns (computed v) = true
owns written = true
owns aborted = true
owns _ = false

-- A thread that has read `Complete`, or stored it.
abbrev pub sees {ℓ κ} : {T : Type ℓ} {E : Type κ} → Place T E → Bool
sees (loaded complete) = true
sees (matched complete) = true
sees (got complete) = true
sees completed = true
sees (returned (ok v)) = true
sees _ = false

-- A place that leads to undefined behaviour.
abbrev pub is_wrong {ℓ κ} : {T : Type ℓ} {E : Type κ} → Place T E → Bool
is_wrong (matched incomplete) = true
is_wrong undefined = true
is_wrong _ = false

abbrev pub has_written {ℓ κ} : {T : Type ℓ} {E : Type κ} → Place T E → Bool
has_written written = true
has_written _ = false

abbrev pub result_of {ℓ κ} : {T : Type ℓ} {E : Type κ} → Place T E → Option T
result_of (returned (ok v)) = some v
result_of _ = none

abbrev pub is_some {ℓ} : {A : Type ℓ} → Option A → Bool
is_some (some _) = true
is_some none = false

-- A complete cell has its data.
abbrev pub IsStored {ℓ} : {T : Type ℓ} → Once T → Type 0
IsStored o = o.status ≡ complete → is_some o.value ≡ true

pub complete-not_running : complete ≢ running
complete-not_running e = let f = ap status_no e in omega (arith, f)

module _ {ℓ κ} {T : Type ℓ} {E : Type κ} where
  -- The place of a thread fits the status and the data.
  pub record Local (o : Once T) (p : Place T E) : Type ℓ where
    pub busy : owns p ≡ true → o.status ≡ running
    pub seen : sees p ≡ true → o.status ≡ complete
    pub right : is_wrong p ≡ false
    pub filled : has_written p ≡ true → is_some o.value ≡ true
    pub read : (v : T) → result_of p ≡ some v → o.value ≡ some v

  has_written-owns : (p : Place T E) → owns p ≡ false → has_written p ≡ true → ⊥
  has_written-owns written f h = cc
  has_written-owns outside f h = cc
  has_written-owns p f h = cc

  result_of-sees : (p : Place T E) (v : T) → result_of p ≡ some v → sees p ≡ true
  result_of-sees (returned (ok v)) w h = refl
  result_of-sees outside w h = absurd cc
  result_of-sees p w h = absurd cc

  -- While the status is not `Complete`, the place of a thread that does not own it says nothing about
  -- what the status and the data become.
  pub other_Local :
      (o o' : Once T) (q : Place T E)
      → o.status ≢ complete
      → owns q ≡ false
      → Local o q
      → Local o' q
  other_Local o o' q h f l = record {
    busy = λ e. absurd cc;
    seen = λ e. absurd (h (l.seen e));
    right = l.right;
    filled = λ e. absurd (has_written-owns q f e);
    read = λ v e. absurd (h (l.seen (result_of-sees q v e)));
  }

  -- A place that only needs the status.
  pub plain :
      (o : Once T) (p : Place T E)
      → (owns p ≡ true → o.status ≡ running)
      → (sees p ≡ true → o.status ≡ complete)
      → is_wrong p ≡ false
      → has_written p ≡ false
      → result_of p ≡ none
      → Local o p
  plain o p a b c d e = record {
    busy = a;
    seen = b;
    right = c;
    filled = λ f. absurd cc;
    read = λ v f. absurd cc;
  }

  pub record Good (o o' : Once T) (p p' : Place T E) : Type (ℓ ⊔ κ) where
    pub own : Local o' p'
    pub stored : IsStored o'
    -- Only the owner changes the status or the data, or the thread that sets `Running`.
    pub quiet : (o' ≡ o) ⊎ ((o.status ≢ complete) × ((owns p ≡ true) ⊎ (o.status ≡ incomplete)))
    pub taken : owns p' ≡ true → (owns p ≡ true) ⊎ (o.status ≡ incomplete)
    pub covered : o'.status ≡ running → (owns p' ≡ true) ⊎ ((owns p ≡ false) × (o.status ≡ running))
