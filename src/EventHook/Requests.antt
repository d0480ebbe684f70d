-- ===== src/EventHook/Requests.antt =====
-- event_hook/src/lib.rs: what the calls that handlers make while the lock is held leave in the queues.
use bare_metal_blasterball.Base.{
  ℕ, suc, ◌≤◌, ◌<◌, ◌≡◌, refl, sym, ap, ◌∙◌, none, some, inl, inr, Option-cases, map, List, [], ◌∷◌,
  ◌++◌, arith, ==_false,
}
use mathlib.Core.List.{append_assoc, append-nil}
use bare_metal_blasterball.EventHook.Defs.{
  Event, EventHooker, HookArgs, UnhookArgs, Handler, Request, hook_event, unhook_event, send_event,
  usize_max, next_id, miss, miss_all, call_all,
}

module _ {F : Type 0} where
  -- The hooks, with the ids that they get from a first one on, the unhooks and the events among a
  -- list of requests.
  abbrev pub hooks_of : ℕ → List (Request F) → List (HookArgs F)
  hooks_of id [] = []
  hooks_of id (hook_event kind func ∷ rs) =
      record { event_kind = kind; handler_id = id; func = func } ∷ hooks_of (suc id) rs
  hooks_of id (unhook_event i kind ∷ rs) = hooks_of id rs
  hooks_of id (send_event e ∷ rs) = hooks_of id rs

  abbrev pub unhooks_of : List (Request F) → List UnhookArgs
  unhooks_of [] = []
  unhooks_of (hook_event kind func ∷ rs) = unhooks_of rs
  unhooks_of (unhook_event i kind ∷ rs) =
      record { event_kind = kind; handler_id = i } ∷ unhooks_of rs
  unhooks_of (send_event e ∷ rs) = unhooks_of rs

  abbrev pub events_of : List (Request F) → List Event
  events_of [] = []
  events_of (hook_event kind func ∷ rs) = events_of rs
  events_of (unhook_event i kind ∷ rs) = events_of rs
  events_of (send_event e ∷ rs) = e ∷ events_of rs

  -- The next id after the requests.
  abbrev pub id_after : ℕ → List (Request F) → ℕ
  id_after id [] = id
  id_after id (hook_event kind func ∷ rs) = id_after (suc id) rs
  id_after id (unhook_event i kind ∷ rs) = id_after id rs
  id_after id (send_event e ∷ rs) = id_after id rs

  -- The hooker with the requests in its queues.
  abbrev pub queued : List (Request F) → EventHooker F → EventHooker F
  queued rs s = record s {
    next_idx = id_after s.next_idx rs;
    missed_hooks = s.missed_hooks ++ hooks_of s.next_idx rs;
    missed_unhooks = s.missed_unhooks ++ unhooks_of rs;
    missed_events = s.missed_events ++ events_of rs;
  }

  pub id_after-le : (id : ℕ) (rs : List (Request F)) → id ≤ id_after id rs
  id_after-le id [] = omega arith
  id_after-le id (hook_event kind func ∷ rs) = omega (arith, id_after-le (suc id) rs)
  id_after-le id (unhook_event i kind ∷ rs) = id_after-le id rs
  id_after-le id (send_event e ∷ rs) = id_after-le id rs

  pub next_id_lem :
      (s : EventHooker F)
      → suc s.next_idx < usize_max
      → next_id s ≡ some (record s { next_idx = suc s.next_idx })
  unfolding next_id
  next_id_lem s h = rw (==_false (suc s.next_idx) usize_max (omega arith))

  -- While the ids last, the requests end up in the queues, in order.
  pub miss_all_lem :
      (rs : List (Request F)) (s : EventHooker F)
      → id_after s.next_idx rs < usize_max
      → miss_all rs s ≡ some (queued rs s)
  unfolding miss_all miss
  miss_all_lem [] s h =
      rw (append-nil s.missed_hooks, append-nil s.missed_unhooks, append-nil s.missed_events)
  miss_all_lem (hook_event kind func ∷ rs) s h =
      let args : HookArgs F = record { event_kind = kind; handler_id = s.next_idx; func = func } in
      let s₁ = record s { missed_hooks = s.missed_hooks ++ (args ∷ []) } in
      rw (next_id_lem s₁ (omega (arith, h, id_after-le (suc s.next_idx) rs))) (
        miss_all_lem rs (record s₁ { next_idx = suc s.next_idx }) h
        ∙ ap (λ l. some (record (queued (hook_event kind func ∷ rs) s) { missed_hooks = l }))
            (append_assoc s.missed_hooks (args ∷ []) (hooks_of (suc s.next_idx) rs)))
  miss_all_lem (unhook_event i kind ∷ rs) s h =
      let args : UnhookArgs = record { event_kind = kind; handler_id = i } in
      miss_all_lem rs (record s { missed_unhooks = s.missed_unhooks ++ (args ∷ []) }) h
      ∙ ap (λ l. some (record (queued (unhook_event i kind ∷ rs) s) { missed_unhooks = l }))
          (append_assoc s.missed_unhooks (args ∷ []) (unhooks_of rs))
  miss_all_lem (send_event e ∷ rs) s h =
      miss_all_lem rs (record s { missed_events = s.missed_events ++ (e ∷ []) }) h
      ∙ ap (λ l. some (record (queued (send_event e ∷ rs) s) { missed_events = l }))
          (append_assoc s.missed_events (e ∷ []) (events_of rs))

  pub id_after-append :
      (id : ℕ) (rs rs' : List (Request F)) → id_after id (rs ++ rs') ≡ id_after (id_after id rs) rs'
  id_after-append id [] rs' = refl
  id_after-append id (hook_event kind func ∷ rs) rs' = id_after-append (suc id) rs rs'
  id_after-append id (unhook_event i kind ∷ rs) rs' = id_after-append id rs rs'
  id_after-append id (send_event e ∷ rs) rs' = id_after-append id rs rs'

  miss_all-append :
      (rs rs' : List (Request F)) (s s' : EventHooker F)
      → miss_all rs s ≡ some s'
      → miss_all (rs ++ rs') s ≡ miss_all rs' s'
  unfolding miss_all
  miss_all-append [] rs' s s' h = let same : s ≡ s' = cc in ap (λ t. miss_all rs' t) same
  miss_all-append (r ∷ rs) rs' s s' h = elim (Option-cases (miss r s)) [
    | inl e ↦ absurd (none-ne-some (rw e at h))
    | inr (t, e) ↦ rw e (miss_all-append rs rs' t s' (rw e at h))
  ]
    where
      none-ne-some : {t : EventHooker F} → none ≡ some t → ⊥
      none-ne-some q = cc

  pub queued-append :
      (rs rs' : List (Request F)) (s : EventHooker F)
      → id_after s.next_idx (rs ++ rs') < usize_max
      → queued (rs ++ rs') s ≡ queued rs' (queued rs s)
  queued-append rs rs' s h =
      let split = id_after-append s.next_idx rs rs' in
      let first =
        miss_all_lem rs s (omega (arith, h, split, id_after-le (id_after s.next_idx rs) rs')) in
      let both : some (queued (rs ++ rs') s) ≡ some (queued rs' (queued rs s)) =
        sym (miss_all_lem (rs ++ rs') s h)
        ∙ miss_all-append rs rs' s (queued rs s) first
        ∙ miss_all_lem rs' (queued rs s) (omega (arith, h, split)) in
      cc

  module _ (calls : F → Event → List (Request F)) where
    -- The requests that handlers make on an event, one handler after the other.
    abbrev pub requests : Event → List (Handler F) → List (Request F)
    requests e [] = []
    requests e (h ∷ hs) = calls h.func e ++ requests e hs

    -- The calls of the handlers, one after the other.
    abbrev pub calls_of : Event → List (Handler F) → List (F × Event)
    calls_of e hs = map (λ (h : Handler F). (h.func, e)) hs

    -- While the ids last, sending an event to handlers calls each of them once, in order, and puts
    -- their requests in the queues.
    pub call_all_lem :
        (e : Event) (hs : List (Handler F)) (s : EventHooker F)
        → id_after s.next_idx (requests e hs) < usize_max
        → call_all calls e hs s
          ≡ some (record (queued (requests e hs) s) { called = s.called ++ calls_of e hs })
    unfolding call_all
    call_all_lem e [] s h = rw (
      append-nil s.missed_hooks,
      append-nil s.missed_unhooks,
      append-nil s.missed_events,
      append-nil s.called,
    )
    call_all_lem e (k ∷ hs) s h =
        let one = calls k.func e in
        let later = requests e hs in
        let split = id_after-append s.next_idx one later in
        let s₁ = record s { called = s.called ++ ((k.func, e) ∷ []) } in
        let first =
          miss_all_lem one s₁
            (omega (arith, h, split, id_after-le (id_after s.next_idx one) later)) in
        rw first (
          call_all_lem e hs (queued one s₁) (omega (arith, h, split))
          ∙ ap
              (λ (t : EventHooker F).
                some (record t { called = (s.called ++ ((k.func, e) ∷ [])) ++ calls_of e hs }))
              (sym (queued-append one later s h))
          ∙ ap (λ (l : List (F × Event)). some (record (queued (one ++ later) s) { called = l }))
              (append_assoc s.called ((k.func, e) ∷ []) (calls_of e hs)))
