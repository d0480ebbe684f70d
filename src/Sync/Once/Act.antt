-- ===== src/Sync/Once/Act.antt =====
-- sync/src/once.rs: every step of a thread keeps what its own place says, and disturbs no other.
use bare_metal_blasterball.Base.{
  ◌≡◌, ◌≢◌, inl, inr, refl, sym, ap, ◌∙◌, true, false, Bool-cases, Option, none, some, ok, err,
  arith,
}
use bare_metal_blasterball.Sync.Once.Defs.{
  OnceStatus, complete, running, incomplete, panicked, status_no, compare_exchange, Once, Choice,
  returns, panics, gets, Place, outside, loaded, got, aborted, got_match, load_status, calling,
  failed, computed, written, completed, matched, polling, returned, panicking, undefined, force_get,
  try_claim, call, poll_round, finish, act,
}
use bare_metal_blasterball.Sync.Once.Local.{
  owns, sees, is_wrong, has_written, result_of, is_some, complete-not_running, IsStored, Local,
  plain, Good,
}

complete-not_incomplete : complete ≢ incomplete
complete-not_incomplete e = let f = ap status_no e in omega (arith, f)

module _ {ℓ κ} {T : Type ℓ} {E : Type κ} where
  -- A step that changes neither the status nor the data, nor who owns the status.
  same :
      (o : Once T) (p p' : Place T E) → IsStored o → owns p ≡ owns p' → Local o p' → Good o o p p'
  same o p p' st e l = record {
    own = l;
    stored = st;
    quiet = inl refl;
    taken = λ h. inl (e ∙ h);
    covered = λ h. elim (Bool-cases (owns p)) [ inl t ↦ inl (sym e ∙ t) | inr f ↦ inr (f, h) ];
  }

  -- A place that says nothing.
  idle :
      (o : Once T) (p : Place T E)
      → owns p ≡ false
      → sees p ≡ false
      → is_wrong p ≡ false
      → has_written p ≡ false
      → result_of p ≡ none
      → Local o p
  idle o p a b = plain o p (λ h. absurd cc) (λ h. absurd cc)

  -- A step by which the owner gives the status up, or keeps it.
  by_owner :
      (o o' : Once T) (p p' : Place T E)
      → owns p ≡ true
      → o.status ≡ running
      → IsStored o'
      → (o'.status ≡ running → owns p' ≡ true)
      → Local o' p'
      → Good o o' p p'
  by_owner o o' p p' e r st k l = record {
    own = l;
    stored = st;
    quiet = inr ((λ c. complete-not_running (sym c ∙ r)), inl e);
    taken = λ _. inl e;
    covered = λ h. inl (k h);
  }

  loaded_Local :
      (s : OnceStatus) (v : Option T) → Local {E = E} (record { status = s; value = v }) (loaded s)
  loaded_Local complete v = plain _ _ (λ h. absurd cc) (λ h. refl) refl refl refl
  loaded_Local running v = idle _ _ refl refl refl refl refl
  loaded_Local incomplete v = idle _ _ refl refl refl refl refl
  loaded_Local panicked v = idle _ _ refl refl refl refl refl

  force_Local :
      (s : OnceStatus) (v : Option T)
      → s ≡ complete
      → is_some v ≡ true
      → (owns (force_get {E = E} (record { status = s; value = v })) ≡ false)
        × Local {E = E}
            (record { status = s; value = v })
            (force_get (record { status = s; value = v }))
  unfolding force_get
  force_Local s none c h = absurd cc
  force_Local s (some v) c h = (
    refl,
    record {
      busy = λ e. absurd cc;
      seen = λ _. c;
      right = refl;
      filled = λ e. absurd cc;
      read = λ w e. e;
    },
  )

  force_Good :
      (o : Once T) (p : Place T E)
      → owns p ≡ false
      → IsStored o
      → o.status ≡ complete
      → Good o o p (force_get o)
  force_Good o p e st c =
      let (f, l) = force_Local o.status o.value c (st c) in same o p (force_get o) st (e ∙ sym f) l

  claim_Good :
      (s : OnceStatus) (v : Option T)
      → (let o : Once T = record { status = s; value = v } in
          IsStored o → Good {E = E} o (try_claim {E = E} o).0 (loaded incomplete) (try_claim o).1)
  unfolding try_claim compare_exchange
  claim_Good incomplete v st = record {
    own = plain _ _ (λ _. refl) (λ h. absurd cc) refl refl refl;
    stored = λ h. absurd (complete-not_running (sym h));
    quiet = inr ((λ h. complete-not_incomplete (sym h)), inr refl);
    taken = λ _. inr refl;
    covered = λ _. inl refl;
  }
  claim_Good complete v st =
      same _ _ _ st refl (plain _ _ (λ h. absurd cc) (λ h. refl) refl refl refl)
  claim_Good running v st = same _ _ _ st refl (idle _ _ refl refl refl refl refl)
  claim_Good panicked v st = same _ _ _ st refl (idle _ _ refl refl refl refl refl)

  poll_Good :
      (s : OnceStatus) (v : Option T)
      → (let o : Once T = record { status = s; value = v } in
          IsStored o → Good {E = E} o o polling (poll_round o))
  unfolding poll_round
  poll_Good incomplete v st = same _ _ _ st refl (idle _ _ refl refl refl refl refl)
  poll_Good running v st = same _ _ _ st refl (idle _ _ refl refl refl refl refl)
  poll_Good panicked v st = same _ _ _ st refl (idle _ _ refl refl refl refl refl)
  poll_Good complete v st =
      force_Good (record { status = complete; value = v }) polling refl st refl

  got_Local :
      (s : OnceStatus) (v : Option T) → Local {E = E} (record { status = s; value = v }) (got s)
  got_Local complete v = plain _ _ (λ h. absurd cc) (λ h. refl) refl refl refl
  got_Local running v = idle _ _ refl refl refl refl refl
  got_Local incomplete v = idle _ _ refl refl refl refl refl
  got_Local panicked v = idle _ _ refl refl refl refl refl

  pub act-Good :
      (c : Choice T E) (p : Place T E) (o : Once T)
      → Local o p
      → IsStored o
      → Good o (act c p o).0 p (act c p o).1
  unfolding act call finish got_match load_status
  act-Good gets outside o l st = same _ _ _ st refl (got_Local o.status o.value)
  act-Good (returns r) outside o l st = same _ _ _ st refl (loaded_Local o.status o.value)
  act-Good panics outside o l st = same _ _ _ st refl (loaded_Local o.status o.value)
  act-Good c (got complete) o l st = force_Good o (got complete) refl st (l.seen refl)
  act-Good c (got running) o l st = same _ _ _ st refl (idle _ _ refl refl refl refl refl)
  act-Good c (got incomplete) o l st = same _ _ _ st refl (idle _ _ refl refl refl refl refl)
  act-Good c (got panicked) o l st = same _ _ _ st refl (idle _ _ refl refl refl refl refl)
  act-Good c (loaded incomplete) o l st = claim_Good o.status o.value st
  act-Good c (loaded complete) o l st =
      same _ _ _ st refl (plain _ _ (λ h. absurd cc) l.seen refl refl refl)
  act-Good c (loaded running) o l st = same _ _ _ st refl (idle _ _ refl refl refl refl refl)
  act-Good c (loaded panicked) o l st = same _ _ _ st refl (idle _ _ refl refl refl refl refl)
  act-Good (returns (ok val)) calling o l st =
      same _ _ _ st refl (plain _ _ l.busy (λ h. absurd cc) refl refl refl)
  act-Good (returns (err e)) calling o l st =
      same _ _ _ st refl (plain _ _ l.busy (λ h. absurd cc) refl refl refl)
  act-Good panics calling o l st =
      same _ _ _ st refl (plain _ _ l.busy (λ h. absurd cc) refl refl refl)
  act-Good gets calling o l st = same _ _ _ st refl l
  act-Good c (failed e) o l st =
      by_owner _ _ _ _ refl (l.busy refl) (λ h. absurd (complete-not_incomplete (sym h)))
        (λ h. absurd (let f = ap status_no h in omega (arith, f)))
        (idle _ _ refl refl refl refl refl)
  act-Good c (computed v) o l st =
      by_owner _ _ _ _ refl (l.busy refl) (λ _. refl) (λ _. refl)
        (record {
          busy = λ _. l.busy refl;
          seen = λ h. absurd cc;
          right = refl;
          filled = λ _. refl;
          read = λ w h. absurd cc;
        })
  act-Good c written o l st =
      by_owner _ _ _ _ refl (l.busy refl) (λ _. l.filled refl)
        (λ h. absurd (complete-not_running h))
        (plain _ _ (λ h. absurd cc) (λ _. refl) refl refl refl)
  act-Good c completed o l st = force_Good o completed refl st (l.seen refl)
  act-Good c (matched complete) o l st = force_Good o (matched complete) refl st (l.seen refl)
  act-Good c (matched running) o l st = same _ _ _ st refl (idle _ _ refl refl refl refl refl)
  act-Good c (matched panicked) o l st = same _ _ _ st refl (idle _ _ refl refl refl refl refl)
  act-Good c (matched incomplete) o l st = absurd (let f = l.right in cc)
  act-Good c polling o l st = poll_Good o.status o.value st
  act-Good c (returned (ok v)) o l st = same _ _ _ st refl l
  act-Good c (returned (err e)) o l st = same _ _ _ st refl l
  act-Good c aborted o l st = same _ _ _ st refl l
  act-Good c panicking o l st = same _ _ _ st refl l
  act-Good c undefined o l st = same _ _ _ st refl l
