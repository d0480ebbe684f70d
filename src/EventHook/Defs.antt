-- ===== src/EventHook/Defs.antt =====
-- event_hook/src/lib.rs: `EventHooker`. A handler's function is a value of a type `F`, and `calls` says
-- which calls of the hooker it makes when an event is sent to it: the lock is held then, so that each
-- is put in a queue. The vectors and the queues are the lists that they represent, on an allocator
-- that refuses no block; `called` records the calls of handlers. `none` is a panic, or a loop over
-- missed events that ran out of fuel.
use bare_metal_blasterball.Base.{
  ℕ, zero, suc, ◌-◌, ◌^◌, Bool, true, false, Option, none, some, List, [], ◌∷◌, ◌++◌, ◌==◌,
  if◌then◌else◌, ◌>>=◌,
}
use bare_metal_blasterball.Keyboard.Codes.{KeyCode}
use bare_metal_blasterball.Keyboard.Decoder.{KeyDirection, KeyModifiers}

pub data Event : Type 0 where
  timer : Event
  keyboard : KeyCode → KeyDirection → KeyModifiers → Event
  sound : Event

pub data EventKind : Type 0 where
  timer : EventKind
  keyboard : EventKind
  sound : EventKind

unfoldable pub from_event : Event → EventKind
from_event Event.timer = EventKind.timer
from_event (Event.keyboard key dir modifiers) = EventKind.keyboard
from_event Event.sound = EventKind.sound

pub record Handler (F : Type 0) : Type 0 where
  pub idx : ℕ
  pub func : F

pub record Handlers (F : Type 0) : Type 0 where
  pub timer : List (Handler F)
  pub keyboard : List (Handler F)
  pub sound : List (Handler F)

pub record HookArgs (F : Type 0) : Type 0 where
  pub event_kind : EventKind
  pub handler_id : ℕ
  pub func : F

pub record UnhookArgs : Type 0 where
  pub event_kind : EventKind
  pub handler_id : ℕ

pub record EventHooker (F : Type 0) : Type 0 where
  pub handlers : Handlers F
  pub next_idx : ℕ
  pub missed_hooks : List (HookArgs F)
  pub missed_unhooks : List UnhookArgs
  pub missed_events : List Event
  pub called : List (F × Event)

-- A call of the hooker that a handler makes.
pub data Request (F : Type 0) : Type 0 where
  hook_event : EventKind → F → Request F
  unhook_event : ℕ → EventKind → Request F
  send_event : Event → Request F

abbrev pub usize_max : ℕ
usize_max = 2 ^ 64 - 1

module _ {F : Type 0} where
  -- `EventHooker::new`
  abbrev pub new_hooker : EventHooker F
  new_hooker = record {
    handlers = record { timer = []; keyboard = []; sound = [] };
    next_idx = 0;
    missed_hooks = [];
    missed_unhooks = [];
    missed_events = [];
    called = [];
  }

  -- `Index` and `IndexMut` of the handlers
  unfoldable pub of_kind : Handlers F → EventKind → List (Handler F)
  of_kind hs EventKind.timer = hs.timer
  of_kind hs EventKind.keyboard = hs.keyboard
  of_kind hs EventKind.sound = hs.sound

  unfoldable pub with_kind : Handlers F → EventKind → List (Handler F) → Handlers F
  with_kind hs EventKind.timer l = record hs { timer = l }
  with_kind hs EventKind.keyboard l = record hs { keyboard = l }
  with_kind hs EventKind.sound l = record hs { sound = l }

  unfoldable pub hook : Handlers F → HookArgs F → Handlers F
  unfolding of_kind with_kind
  hook hs args =
      with_kind hs args.event_kind
        (of_kind hs args.event_kind ++ (record { idx = args.handler_id; func = args.func } ∷ []))

  -- The loop of `unhook`: the first handler with the id leaves the vector.
  unfoldable pub remove_id : ℕ → List (Handler F) → List (Handler F)
  remove_id id [] = []
  remove_id id (h ∷ hs) = if h.idx == id then hs else h ∷ remove_id id hs

  unfoldable pub unhook : Handlers F → UnhookArgs → Handlers F
  unfolding of_kind with_kind remove_id
  unhook hs args =
      with_kind hs args.event_kind (remove_id args.handler_id (of_kind hs args.event_kind))

  -- The loops over the missed hooks and unhooks.
  unfoldable pub hook_all : List (HookArgs F) → Handlers F → Handlers F
  unfolding hook
  hook_all [] hs = hs
  hook_all (a ∷ more) hs = hook_all more (hook hs a)

  unfoldable pub unhook_all : List UnhookArgs → Handlers F → Handlers F
  unfolding unhook
  unhook_all [] hs = hs
  unhook_all (a ∷ more) hs = unhook_all more (unhook hs a)

  unfoldable pub drain_hooks : EventHooker F → EventHooker F
  unfolding hook_all
  drain_hooks s = record s { handlers = hook_all s.missed_hooks s.handlers; missed_hooks = [] }

  unfoldable pub drain_unhooks : EventHooker F → EventHooker F
  unfolding unhook_all
  drain_unhooks s = record s {
    handlers = unhook_all s.missed_unhooks s.handlers;
    missed_unhooks = [];
  }

  -- The end of `hook_event`
  unfoldable pub next_id : EventHooker F → Option (EventHooker F)
  next_id s =
      if suc s.next_idx == usize_max then none else some (record s { next_idx = suc s.next_idx })

  -- The three calls while the lock is held.
  unfoldable pub miss : Request F → EventHooker F → Option (EventHooker F)
  unfolding next_id
  miss (hook_event kind func) s = next_id (record s {
    missed_hooks =
        s.missed_hooks ++ (record { event_kind = kind; handler_id = s.next_idx; func = func } ∷ []);
  })
  miss (unhook_event id kind) s = some (record s {
    missed_unhooks = s.missed_unhooks ++ (record { event_kind = kind; handler_id = id } ∷ []);
  })
  miss (send_event event) s = some (record s { missed_events = s.missed_events ++ (event ∷ []) })

  unfoldable pub miss_all : List (Request F) → EventHooker F → Option (EventHooker F)
  unfolding miss
  miss_all [] s = some s
  miss_all (r ∷ rs) s = do s' ← miss r s; miss_all rs s'

  -- `handler_exists`, while the lock is free
  unfoldable pub has_id : ℕ → List (Handler F) → Bool
  has_id id [] = false
  has_id id (h ∷ hs) = if h.idx == id then true else has_id id hs

  unfoldable pub handler_exists : EventHooker F → EventKind → ℕ → Bool
  unfolding of_kind has_id
  handler_exists s kind id = has_id id (of_kind s.handlers kind)

  module _ (calls : F → Event → List (Request F)) where
    -- `event`
    unfoldable pub call_all : Event → List (Handler F) → EventHooker F → Option (EventHooker F)
    unfolding miss_all
    call_all e [] s = some s
    call_all e (h ∷ hs) s = do
      s' ← miss_all (calls h.func e) (record s { called = s.called ++ ((h.func, e) ∷ []) })
      call_all e hs s'

    unfoldable pub event : Event → EventHooker F → Option (EventHooker F)
    unfolding call_all of_kind from_event
    event e s = call_all e (of_kind s.handlers (from_event e)) s

    unfoldable pub drain_events : ℕ → EventHooker F → Option (EventHooker F)
    unfolding event
    drain_events zero s = none
    drain_events (suc fuel) s = elim (s.missed_events) [
      | [] ↦ some s
      | e ∷ es ↦ (do s' ← event e (record s { missed_events = es }); drain_events fuel s')
    ]

    -- The three calls while the lock is free.
    unfoldable pub hook_event_free : ℕ → EventKind → F → EventHooker F → Option (EventHooker F × ℕ)
    unfolding hook drain_unhooks drain_events next_id
    hook_event_free fuel kind func s =
        let id = s.next_idx in
        (do
          let args : HookArgs F = record { event_kind = kind; handler_id = id; func = func }
          s' ← drain_events fuel (drain_unhooks (record s { handlers = hook s.handlers args }))
          s'' ← next_id s'
          some (s'', id))

    unfoldable pub send_event_free : Event → EventHooker F → Option (EventHooker F)
    unfolding event drain_hooks drain_unhooks
    send_event_free e s = do s' ← event e s; some (drain_unhooks (drain_hooks s'))

    unfoldable pub unhook_event_free : ℕ → ℕ → EventKind → EventHooker F → Option (EventHooker F)
    unfolding unhook drain_hooks drain_events
    unhook_event_free fuel id kind s = drain_events fuel (
        drain_hooks (record s {
          handlers = unhook s.handlers (record { event_kind = kind; handler_id = id });
        }))
