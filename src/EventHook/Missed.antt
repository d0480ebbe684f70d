-- ===== src/EventHook/Missed.antt =====
-- event_hook/src/lib.rs: the loop over missed events, and what `hook_event` does while the lock is
-- free.
use bare_metal_blasterball.Base.{
  ℕ, zero, suc, ◌<◌, ◌≡◌, refl, sym, ap, ap₂, ◌∙◌, some, List, [], ◌∷◌, ◌++◌, arith, length,
}
use mathlib.Core.List.{append_assoc, append-nil}
use bare_metal_blasterball.EventHook.Defs.{
  Event, EventKind, Handler, Handlers, HookArgs, EventHooker, Request, hook_event, unhook_event,
  send_event, usize_max, from_event, of_kind, hook, unhook_all, drain_unhooks, drain_events, event,
  hook_event_free,
}
use bare_metal_blasterball.EventHook.Requests.{
  requests, calls_of, hooks_of, unhooks_of, events_of, id_after, queued, queued-append,
  id_after-append, id_after-le, call_all_lem, next_id_lem,
}

module _ {F : Type 0} (calls : F → Event → List (Request F)) where
  -- The requests that handlers make on the events, and the calls of handlers, one event after the
  -- other.
  abbrev pub requests_all : List Event → Handlers F → List (Request F)
  requests_all [] hs = []
  requests_all (e ∷ es) hs = requests calls e (of_kind hs (from_event e)) ++ requests_all es hs

  abbrev pub calls_all : List Event → Handlers F → List (F × Event)
  calls_all [] hs = []
  calls_all (e ∷ es) hs = calls_of calls e (of_kind hs (from_event e)) ++ calls_all es hs

  events_of-append :
      (rs rs' : List (Request F)) → events_of (rs ++ rs') ≡ events_of rs ++ events_of rs'
  events_of-append [] rs' = refl
  events_of-append (hook_event kind func ∷ rs) rs' = events_of-append rs rs'
  events_of-append (unhook_event i kind ∷ rs) rs' = events_of-append rs rs'
  events_of-append (send_event e ∷ rs) rs' = ap (λ l. e ∷ l) (events_of-append rs rs')

  module _ (silent : (f : F) (e : Event) → events_of (calls f e) ≡ []) where
    events_of-requests : (e : Event) (hs : List (Handler F)) → events_of (requests calls e hs) ≡ []
    events_of-requests e [] = refl
    events_of-requests e (h ∷ hs) =
        events_of-append (calls h.func e) (requests calls e hs)
        ∙ ap₂ (λ a b. a ++ b) (silent h.func e) (events_of-requests e hs)

    -- The hooker after the missed events.
    abbrev pub drained : List Event → EventHooker F → EventHooker F
    drained es s = record (queued (requests_all es s.handlers) s) {
      missed_events = [];
      called = s.called ++ calls_all es s.handlers;
    }

    event_silent :
        (e : Event) (s : EventHooker F)
        → id_after s.next_idx (requests calls e (of_kind s.handlers (from_event e))) < usize_max
        → event calls e s
          ≡ some (record (queued (requests calls e (of_kind s.handlers (from_event e))) s) {
            missed_events = s.missed_events;
            called = s.called ++ calls_of calls e (of_kind s.handlers (from_event e));
          })
    unfolding event
    event_silent e s h =
        let hs = of_kind s.handlers (from_event e) in
        call_all_lem calls e hs s h
        ∙ ap
            (λ (l : List Event). some (record (queued (requests calls e hs) s) {
              missed_events = l;
              called = s.called ++ calls_of calls e hs;
            }))
            (ap (λ l. s.missed_events ++ l) (events_of-requests e hs) ∙ append-nil s.missed_events)

    drain_events_lem :
        (es : List Event) (s : EventHooker F) (fuel : ℕ)
        → length es < fuel
        → id_after s.next_idx (requests_all es s.handlers) < usize_max
        → drain_events calls fuel (record s { missed_events = es })
          ≡ some (drained es (record s { missed_events = es }))
    unfolding drain_events
    drain_events_lem es s zero f h = absurd (omega arith)
    drain_events_lem [] s (suc fuel) f h =
        rw (append-nil s.missed_hooks, append-nil s.missed_unhooks, append-nil s.called)
    drain_events_lem (e ∷ es) s (suc fuel) f h =
        let rs = requests calls e (of_kind s.handlers (from_event e)) in
        let later = requests_all es s.handlers in
        let one = calls_of calls e (of_kind s.handlers (from_event e)) in
        let rest = calls_all es s.handlers in
        let s₀ : EventHooker F = record s { missed_events = es } in
        let s₁ : EventHooker F = record (queued rs s₀) {
          missed_events = es;
          called = s.called ++ one;
        } in
        let split = id_after-append s.next_idx rs later in
        let first =
          event_silent e s₀ (omega (arith, h, split, id_after-le (id_after s.next_idx rs) later)) in
        rw first (
          drain_events_lem es s₁ fuel (omega arith) (omega (arith, h, split))
          ∙ ap
              (λ (t : EventHooker F).
                some (record t { missed_events = []; called = (s.called ++ one) ++ rest }))
              (sym (queued-append rs later s₀ h))
          ∙ ap
              (λ (l : List (F × Event)).
                some (record (queued (rs ++ later) s₀) { missed_events = []; called = l }))
              (append_assoc s.called one rest))

    -- No handler sends an event. With fuel for more rounds than there are missed events, and unless
    -- the requests of the handlers use up the ids, `hook_event` returns the next id, without a panic.
    -- The handler is hooked, and after it the missed unhooks are made; then each missed event is sent,
    -- in order, to each handler of its kind once, the new one among them. No missed unhook of before
    -- and no missed event stays in its queue; the requests of the handlers are in theirs.
    pub hook_event_lem :
        (s : EventHooker F) (kind : EventKind) (f : F) (fuel : ℕ)
        → length s.missed_events < fuel
        → suc (
            id_after s.next_idx (
              requests_all s.missed_events (
                unhook_all s.missed_unhooks (
                  hook s.handlers
                    (record { event_kind = kind; handler_id = s.next_idx; func = f })))))
          < usize_max
        → let args : HookArgs F = record { event_kind = kind; handler_id = s.next_idx; func = f } in
          let hs = unhook_all s.missed_unhooks (hook s.handlers args) in
          let rs = requests_all s.missed_events hs in
          hook_event_free calls fuel kind f s
          ≡ some (
            record {
              handlers = hs;
              next_idx = suc (id_after s.next_idx rs);
              missed_hooks = s.missed_hooks ++ hooks_of s.next_idx rs;
              missed_unhooks = unhooks_of rs;
              missed_events = [];
              called = s.called ++ calls_all s.missed_events hs;
            },
            s.next_idx,
          )
    unfolding hook_event_free drain_unhooks
    hook_event_lem s kind f fuel enough ids =
        let args : HookArgs F = record { event_kind = kind; handler_id = s.next_idx; func = f } in
        let hs = unhook_all s.missed_unhooks (hook s.handlers args) in
        let s₁ : EventHooker F = record s { handlers = hs; missed_unhooks = [] } in
        rw (
          drain_events_lem s.missed_events s₁ fuel enough (omega (arith, ids)),
          next_id_lem (drained s.missed_events s₁) ids,
        )
