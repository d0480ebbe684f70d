-- ===== src/EventHook/Tests.antt =====
-- event_hook/src/lib.rs: the theorems at concrete handlers, which are numbers.
use bare_metal_blasterball.Base.{
  suc, Bool-cases, inl, inr, ℕ, ◌≡◌, some, List, [], ◌∷◌, ◌++◌, arith, ◌==◌, if◌then◌else◌,
}
use bare_metal_blasterball.EventHook.Defs.{
  Event, EventKind, Handlers, EventHooker, Request, hook_event, send_event, from_event, of_kind,
  with_kind, hook, hook_all, unhook_all, send_event_free, hook_event_free, unhook_event_free,
  unhook, remove_id, HookArgs,
}
use bare_metal_blasterball.EventHook.Requests.{
  hooks_of, unhooks_of, events_of, id_after, requests, calls_of,
}
use bare_metal_blasterball.EventHook.Missed.{requests_all, calls_all, hook_event_lem}
use bare_metal_blasterball.EventHook.Send.{send_event_lem}
use bare_metal_blasterball.EventHook.Hook.{quiet, unhook_event-hook_event}

-- Handler 1 hooks handler 2, and sends a sound event; the others make no call.
abbrev calls : ℕ → Event → List (Request ℕ)
calls f e = if f == 1 then hook_event EventKind.timer 2 ∷ send_event Event.sound ∷ [] else []

-- Handler 3 hooks handler 4, and the others make no call.
abbrev one_call : ℕ → Event → List (Request ℕ)
one_call f e = if f == 3 then hook_event EventKind.timer 4 ∷ [] else []

abbrev two_handlers : Handlers ℕ
two_handlers = record {
  timer = record { idx = 0; func = 0 } ∷ record { idx = 1; func = 1 } ∷ [];
  keyboard = [];
  sound = [];
}

abbrev hooker : EventHooker ℕ
hooker = quiet two_handlers 2 []

send_event_lem_example :
    let hs = of_kind hooker.handlers (from_event Event.timer) in
    let rs = requests calls Event.timer hs in
    send_event_free calls Event.timer hooker
    ≡ some (record {
      handlers =
          unhook_all
            (hooker.missed_unhooks ++ unhooks_of rs)
            (hook_all (hooker.missed_hooks ++ hooks_of hooker.next_idx rs) hooker.handlers);
      next_idx = id_after hooker.next_idx rs;
      missed_hooks = [];
      missed_unhooks = [];
      missed_events = hooker.missed_events ++ events_of rs;
      called = hooker.called ++ calls_of calls Event.timer hs;
    })
unfolding of_kind from_event
send_event_lem_example = send_event_lem calls Event.timer hooker (omega arith)

unhook_event-hook_event_example :
    (s : EventHooker ℕ) × (hook_event_free calls 1 EventKind.timer 5 (quiet two_handlers 2 [])
      ≡ some (s, 2))
    × (unhook_event_free calls 1 2 EventKind.timer s ≡ some (quiet two_handlers 3 []))
unfolding of_kind
unhook_event-hook_event_example =
    unhook_event-hook_event calls 0 two_handlers 2 [] EventKind.timer 5 (omega arith)
      (omega arith, (omega arith, tt))

one_call-silent : (f : ℕ) (e : Event) → events_of (one_call f e) ≡ []
one_call-silent f e = elim (Bool-cases (f == 3)) [ inl h ↦ rw h | inr h ↦ rw h ]

-- A hooker that missed a timer event and the unhook of handler 0.
abbrev late_hooker : EventHooker ℕ
late_hooker = record hooker {
  missed_unhooks = record { event_kind = EventKind.timer; handler_id = 0 } ∷ [];
  missed_events = Event.timer ∷ [];
}

hook_event_lem_example :
    let args : HookArgs ℕ = record { event_kind = EventKind.timer; handler_id = 2; func = 3 } in
    let hs = unhook_all late_hooker.missed_unhooks (hook late_hooker.handlers args) in
    let rs = requests_all one_call late_hooker.missed_events hs in
    hook_event_free one_call 2 EventKind.timer 3 late_hooker
    ≡ some (
      record {
        handlers = hs;
        next_idx = suc (id_after late_hooker.next_idx rs);
        missed_hooks = late_hooker.missed_hooks ++ hooks_of late_hooker.next_idx rs;
        missed_unhooks = unhooks_of rs;
        missed_events = [];
        called = late_hooker.called ++ calls_all one_call late_hooker.missed_events hs;
      },
      2,
    )
unfolding of_kind with_kind hook unhook unhook_all remove_id from_event
hook_event_lem_example =
    hook_event_lem one_call one_call-silent late_hooker EventKind.timer 3 2 (omega arith)
      (omega arith)
