-- ===== src/EventHook/Send.antt =====
-- event_hook/src/lib.rs: what `send_event` does while the lock is free.
use bare_metal_blasterball.Base.{◌<◌, ◌≡◌, some, List, [], ◌++◌}
use bare_metal_blasterball.EventHook.Defs.{
  Event, EventHooker, Request, usize_max, from_event, of_kind, hook_all, unhook_all, drain_hooks,
  drain_unhooks, event, send_event_free,
}
use bare_metal_blasterball.EventHook.Requests.{
  hooks_of, unhooks_of, events_of, id_after, requests, calls_of, call_all_lem,
}

-- Unless the requests of the handlers use up the ids, `send_event` returns without a panic. It calls
-- each handler of the event's kind once, in order. Then it makes the hooks that were missed, before
-- the call or by a handler, and after them the unhooks that were missed, and no such hook or unhook
-- stays in its queue. The events that handlers sent stay in theirs, behind those that were missed
-- before.
pub send_event_lem :
    {F : Type 0} (calls : F → Event → List (Request F)) (e : Event) (s : EventHooker F)
    → id_after s.next_idx (requests calls e (of_kind s.handlers (from_event e))) < usize_max
    → let hs = of_kind s.handlers (from_event e) in
      let rs = requests calls e hs in
      send_event_free calls e s
      ≡ some (record {
        handlers =
            unhook_all
              (s.missed_unhooks ++ unhooks_of rs)
              (hook_all (s.missed_hooks ++ hooks_of s.next_idx rs) s.handlers);
        next_idx = id_after s.next_idx rs;
        missed_hooks = [];
        missed_unhooks = [];
        missed_events = s.missed_events ++ events_of rs;
        called = s.called ++ calls_of calls e hs;
      })
unfolding send_event_free event drain_hooks drain_unhooks
send_event_lem calls e s h = rw (call_all_lem calls e (of_kind s.handlers (from_event e)) s h)
