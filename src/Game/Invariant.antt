-- ===== src/Game/Invariant.antt =====
-- blasterball/src/lib.rs: what holds of the game after any events.
use bare_metal_blasterball.Base.{
  ℕ, ◌≡◌, inl, inr, Bool, true, false, not, ◌&&◌, Option, none, some, ◌==◌, if◌then◌else◌, List,
  length, refl, sym, ◌∙◌, Bool-cases, subst, Returns, Returns-bind, Returns-then, Returns-if,
  Returns-if_true, Returns-result,
}
use bare_metal_blasterball.Keyboard.Codes.{KeyCode}
use bare_metal_blasterball.Keyboard.Decoder.{KeyDirection}
use bare_metal_blasterball.Physics.Object.{add_point}
use bare_metal_blasterball.Game.Defs.{Character, Game, Output, RtcTime}
use bare_metal_blasterball.Game.Loop.{
  PaddleDirection, on_key, on_tick, on_arrow, is_at_wall, paddle_diff, on_enter, on_escape,
  start_game, move_paddle_in_double_buffer, bounce, hit_block, advance, after_bounce, play,
}
use bare_metal_blasterball.Game.Ball.{
  Aimed, FirstAimed, BallAimed, hit_block-Aimed, bounce-Aimed, advance-Aimed,
}
use bare_metal_blasterball.Game.Direction.{generate_direction-IsAimed}

-- Once the game has started, its ball is aimed; and it is paused only then.
pub record IsGame (g : Game) : Type 0 where
  pub aimed : g.has_started ≡ true → Aimed g.ball_char
  pub started : g.paused ≡ true → g.has_started ≡ true

abbrev LeavesGame : Game × List Output → Type 0
LeavesGame (g, out) = IsGame g

after_bounce-IsGame :
    (fuel : ℕ) (g : Game) (bounced : Option Character)
    → IsGame g
    → Returns Aimed bounced
    → Returns LeavesGame (after_bounce fuel g bounced)
unfolding after_bounce
after_bounce-IsGame fuel g none h a = record { aimed = h.aimed; started = h.started }
after_bounce-IsGame fuel g (some ball) h a =
    Returns-bind FirstAimed LeavesGame (hit_block ball g.blocks) _ (hit_block-Aimed ball g.blocks a)
      (λ (hit, blocks, out) b.
        Returns-bind BallAimed LeavesGame (advance fuel hit g.paddle_char) _
          (advance-Aimed fuel hit g.paddle_char b)
          (λ (moved, out') c. record { aimed = λ _. c; started = h.started }))

play-IsGame :
    (fuel : ℕ) (g : Game) → IsGame g → g.has_started ≡ true → Returns LeavesGame (play fuel g)
unfolding play
play-IsGame fuel g h started =
    Returns-bind (Returns Aimed) LeavesGame (bounce g) _ (bounce-Aimed g (h.aimed started))
      (λ bounced a. after_bounce-IsGame fuel g bounced h a)

-- A change that leaves the ball and the two flags.
kept :
    (g g' : Game)
    → IsGame g
    → g'.ball_char ≡ g.ball_char
    → g'.has_started ≡ g.has_started
    → g'.paused ≡ g.paused
    → IsGame g'
kept g g' h b s p = record {
  aimed = λ e. subst Aimed (sym b) (h.aimed (sym s ∙ e));
  started = λ e. s ∙ h.started (sym p ∙ e);
}

not_paused : (g : Game) → IsGame g → g.has_started ≡ false → g.paused ≡ false
not_paused g h e = elim (Bool-cases g.paused) [
  | inl p ↦ (let s = h.started p in absurd cc)
  | inr p ↦ p
]

-- The branches of a tick are those of the source.
on_tick-IsGame : (fuel : ℕ) (g : Game) → IsGame g → Returns LeavesGame (on_tick fuel g)
unfolding on_tick
on_tick-IsGame fuel g h = elim (Bool-cases g.has_started) [
  | inr e ↦
      (let p = not_paused g h e in
        Returns-if_true LeavesGame (not g.has_started && not g.paused) _ _ (rw (e, p) refl) h)
  | inl e ↦ Returns-if LeavesGame (not g.has_started && not g.paused) _ _ h (
      Returns-if LeavesGame g.paused _ _
        (Returns-if LeavesGame g.shutdown_attempted _ _ h (
          Returns-if LeavesGame (not g.paused_msg_has_been_drawn) _ _ (kept g _ h refl refl refl)
            h))
        (Returns-if LeavesGame (length g.blocks == 0) _ _ (kept g _ h refl refl refl)
          (play-IsGame fuel g h e)))
]

on_arrow-IsGame : (d : PaddleDirection) (g : Game) → IsGame g → Returns LeavesGame (on_arrow d g)
unfolding on_arrow move_paddle_in_double_buffer
on_arrow-IsGame d g h = Returns-if LeavesGame (not g.has_started) _ _ h (
    Returns-then LeavesGame (is_at_wall d g.paddle_char) _ (λ at_wall.
      Returns-if LeavesGame at_wall _ _ h (
        Returns-then LeavesGame (add_point g.paddle_char.object.position (paddle_diff d)) _
          (λ position. kept g _ h refl refl refl))))

Leaves-if :
    (b : Bool) (x y : Game × List Output) → IsGame x.0 → IsGame y.0 → IsGame (if b then x else y).0
Leaves-if true x y h k = h
Leaves-if false x y h k = k

on_enter-IsGame : (now : RtcTime) (g : Game) → IsGame g → IsGame (on_enter now g).0
unfolding on_enter start_game
on_enter-IsGame now g h =
    Leaves-if (not g.has_started) _ _
      (record { aimed = λ _. generate_direction-IsAimed now; started = λ _. refl })
      (Leaves-if g.paused _ _ (record { aimed = h.aimed; started = λ e. absurd cc }) h)

on_escape-IsGame : (g : Game) → IsGame g → IsGame (on_escape g).0
unfolding on_escape
on_escape-IsGame g h = elim (Bool-cases g.has_started) [
  | inl e ↦ rw e (record { aimed = λ _. h.aimed e; started = λ _. refl })
  | inr e ↦ rw e (kept g (record g { has_started = false }) h refl (sym e) refl)
]

on_key-IsGame :
    (now : RtcTime) (code : KeyCode) (direction : KeyDirection) (g : Game)
    → IsGame g
    → Returns LeavesGame (on_key now code direction g)
unfolding on_key
on_key-IsGame now KeyCode.arrow_right KeyDirection.down g h =
    on_arrow-IsGame PaddleDirection.right g h
on_key-IsGame now KeyCode.arrow_left KeyDirection.down g h =
    on_arrow-IsGame PaddleDirection.left g h
on_key-IsGame now KeyCode.enter KeyDirection.down g h = on_enter-IsGame now g h
on_key-IsGame now KeyCode.escape KeyDirection.down g h = on_escape-IsGame g h
on_key-IsGame now code direction g h = h

-- The events that reach the handlers, in any order.
pub data Reach (g : Game) : Game → Type 0 where
  here : Reach g g
  key :
      {s t : Game} (now : RtcTime) (code : KeyCode) (direction : KeyDirection) (out : List Output)
      → Reach g s
      → on_key now code direction s ≡ some (t, out)
      → Reach g t
  tick :
      {s t : Game} (fuel : ℕ) (out : List Output)
      → Reach g s
      → on_tick fuel s ≡ some (t, out)
      → Reach g t

-- From a game that has not started and is not paused, after any key events and timer ticks, in any
-- order: if the game has started, the ball moves in a direction between 0 and 360 degrees that is
-- none of 0, 180 and 360; and the game is paused only if it has started.
pub Reach-IsGame : {g s : Game} → g.has_started ≡ false → g.paused ≡ false → Reach g s → IsGame s
Reach-IsGame e p here = record { aimed = λ f. absurd cc; started = λ f. absurd cc }
Reach-IsGame e p (key {s} {t} now code direction out r f) =
    Returns-result LeavesGame _ (t, out) (on_key-IsGame now code direction s (Reach-IsGame e p r)) f
Reach-IsGame e p (tick {s} {t} fuel out r f) =
    Returns-result LeavesGame _ (t, out) (on_tick-IsGame fuel s (Reach-IsGame e p r)) f
