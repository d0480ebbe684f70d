-- ===== src/EventHook/Hook.antt =====
-- event_hook/src/lib.rs: what `hook_event` and `unhook_event` do while the lock is free.
use bare_metal_blasterball.Base.{
  ℕ, suc, ◌<◌, ◌≡◌, refl, ap, some, List, [], ◌∷◌, ◌++◌, arith, ==_true, ==_false,
}
use bare_metal_blasterball.EventHook.Defs.{
  Event, EventKind, Handler, Handlers, HookArgs, EventHooker, Request, hook_event, usize_max,
  from_event, of_kind, with_kind, hook, unhook, remove_id, hook_all, unhook_all, drain_hooks,
  drain_unhooks, drain_events, event, hook_event_free, unhook_event_free,
}
use bare_metal_blasterball.EventHook.Requests.{
  requests, next_id_lem, id_after, call_all_lem, queued, calls_of,
}

-- Every id in the list is below a bound.
abbrev pub Below : {F : Type 0} → ℕ → List (Handler F) → Type 0
Below n [] = Unit
Below n (h ∷ hs) = (h.idx < n) × Below n hs

module _ {F : Type 0} where
  remove_id-append :
      (n : ℕ) (f : F) (hs : List (Handler F))
      → Below n hs
      → remove_id n (hs ++ (record { idx = n; func = f } ∷ [])) ≡ hs
  unfolding remove_id
  remove_id-append n f [] b = rw (==_true n n refl)
  remove_id-append n f (h ∷ hs) (p, b) =
      rw (==_false h.idx n (omega arith)) (ap (λ t. h ∷ t) (remove_id-append n f hs b))

  unhook-hook :
      (hs : Handlers F) (kind : EventKind) (n : ℕ) (f : F)
      → Below n (of_kind hs kind)
      → unhook
          (hook hs (record { event_kind = kind; handler_id = n; func = f }))
          (record { event_kind = kind; handler_id = n })
        ≡ hs
  unfolding unhook hook of_kind with_kind
  unhook-hook hs EventKind.timer n f b =
      ap (λ l. record hs { timer = l }) (remove_id-append n f hs.timer b)
  unhook-hook hs EventKind.keyboard n f b =
      ap (λ l. record hs { keyboard = l }) (remove_id-append n f hs.keyboard b)
  unhook-hook hs EventKind.sound n f b =
      ap (λ l. record hs { sound = l }) (remove_id-append n f hs.sound b)

  -- The hooker with no call missed.
  abbrev pub quiet : Handlers F → ℕ → List (F × Event) → EventHooker F
  quiet hs n called = record {
    handlers = hs;
    next_idx = n;
    missed_hooks = [];
    missed_unhooks = [];
    missed_events = [];
    called = called;
  }

  module _ (calls : F → Event → List (Request F)) where
    hook_event_quiet :
        (fuel : ℕ) (hs : Handlers F) (n : ℕ) (called : List (F × Event)) (kind : EventKind) (f : F)
        → suc n < usize_max
        → hook_event_free calls (suc fuel) kind f (quiet hs n called)
          ≡ some (
            quiet (hook hs (record { event_kind = kind; handler_id = n; func = f })) (suc n) called,
            n,
          )
    unfolding hook_event_free drain_unhooks unhook_all drain_events
    hook_event_quiet fuel hs n called kind f h =
        let args : HookArgs F = record { event_kind = kind; handler_id = n; func = f } in
        rw (next_id_lem (quiet (hook hs args) n called) h)

    -- With no call missed, and all ids of a kind below the next one, hooking a handler returns the
    -- next id, and unhooking that id leaves the handlers as they were: each of the two calls returns
    -- without a panic, and no handler is called.
    pub unhook_event-hook_event :
        (fuel : ℕ) (hs : Handlers F) (n : ℕ) (called : List (F × Event)) (kind : EventKind) (f : F)
        → suc n < usize_max
        → Below n (of_kind hs kind)
        → (s : EventHooker F) × (hook_event_free calls (suc fuel) kind f (quiet hs n called)
            ≡ some (s, n))
          × (unhook_event_free calls (suc fuel) n kind s ≡ some (quiet hs (suc n) called))
    unfolding unhook_event_free drain_hooks hook_all drain_events
    unhook_event-hook_event fuel hs n called kind f h b = (
      _,
      hook_event_quiet fuel hs n called kind f h,
      ap (λ (l : Handlers F). some (quiet l (suc n) called)) (unhook-hook hs kind n f b),
    )

    -- An event was missed, and on it the handlers, the new one among them, make one call: they hook
    -- another handler. Then `hook_event`, with fuel for two rounds, returns the id that this other
    -- handler has in the queue of missed hooks: two handlers get the same id.
    pub hook_event_same_id :
        (fuel : ℕ) (hs : Handlers F) (n : ℕ) (called : List (F × Event)) (kind : EventKind) (f : F)
        (missed_hooks : List (HookArgs F)) (e : Event) (k : EventKind) (g : F)
        → suc (suc n) < usize_max
        → requests calls e (
            of_kind
              (hook hs (record { event_kind = kind; handler_id = n; func = f }))
              (from_event e))
          ≡ hook_event k g ∷ []
        → (s : EventHooker F) × (hook_event_free calls
              (suc (suc fuel))
              kind
              f
              (record (quiet hs n called) { missed_hooks = missed_hooks; missed_events = e ∷ [] })
            ≡ some (s, n))
          × (s.missed_hooks
              ≡ missed_hooks ++ (record { event_kind = k; handler_id = n; func = g } ∷ []))
    unfolding hook_event_free drain_unhooks unhook_all drain_events event
    hook_event_same_id fuel hs n called kind f missed_hooks e k g h one =
        let args : HookArgs F = record { event_kind = kind; handler_id = n; func = f } in
        let s₁ : EventHooker F = record (quiet (hook hs args) n called) {
          missed_hooks = missed_hooks;
        } in
        let bound : id_after n (requests calls e (of_kind (hook hs args) (from_event e)))
            < usize_max =
          rw one (omega arith) in
        let rs : List (Request F) = hook_event k g ∷ [] in
        let s₂ : EventHooker F = record (queued rs s₁) {
          called = called ++ calls_of calls e (of_kind (hook hs args) (from_event e));
        } in
        (
          record s₂ { next_idx = suc (suc n) },
          rw (
            call_all_lem calls e (of_kind (hook hs args) (from_event e)) s₁ bound,
            one,
            next_id_lem s₂ h,
          ),
          refl,
        )
