-- ===== src/Log/Captured.antt =====
-- The wrappers of src/log/log.hpp that capture a writer and a clock by reference: what they point at
-- is a part of the world.
use the_pipe.Base.{◌≡◌, ap, ◌∙◌, String}
use the_pipe.Base.Int.{ℤ}
use the_pipe.Log.{Severity, Item, Configuration, write_message}

-- What a pointer to a `T` points at.
pub record Place (W T : Type 0) : Type 0 where
  pub get : W → T
  pub set : T → W → W
  pub get-set : (x : T) (w : W) → get (set x w) ≡ x

module _ {W : Type 0} where
  -- Setting the one leaves the other as it is.
  abbrev pub IsKept : {T U : Type 0} → Place W T → Place W U → Type 0
  IsKept {T} p q = (x : T) (w : W) → q.get (p.set x w) ≡ q.get w

  -- The call through `m_object` of a type_erased_writer, and of a type_erased_timestamp_generator.
  unfoldable pub captured_write : {T : Type 0} → Place W T → (Item → T → T) → Item → W → W
  captured_write p write item w = p.set (write item (p.get w)) w

  unfoldable pub captured_now : {U : Type 0} → Place W U → (U → ℤ × U) → W → ℤ × W
  captured_now p now w = let (when, clock) = now (p.get w) in (when, p.set clock w)

  unfoldable pub capture :
      {T U : Type 0} → Place W T → (Item → T → T) → Place W U → (U → ℤ × U) → Configuration W
  unfolding captured_write captured_now
  capture writer write clock now = record {
    write = captured_write writer write;
    now = captured_now clock now;
  }

  -- The item that is made of a message, with the time of the clock.
  abbrev pub stamped : {U : Type 0} → Place W U → (U → ℤ × U) → Severity → String → W → Item
  stamped clock now severity message w = record {
    when = (now (clock.get w)).0;
    severity = severity;
    message = message;
  }

  module _ {T U : Type 0} (writer : Place W T) (write : Item → T → T) (clock : Place W U)
      (now : U → ℤ × U) where
    abbrev cfg : Configuration W
    cfg = capture writer write clock now

    -- The writer got the message with the time that the clock gave.
    pub write_message-captured :
        (severity : Severity) (message : String) (w : W)
        → IsKept clock writer
        → writer.get (write_message W severity message (record { log_cfg = cfg; world = w })).world
          ≡ write (stamped clock now severity message w) (writer.get w)
    unfolding write_message capture captured_write captured_now
    write_message-captured severity message w h =
        writer.get-set _ _ ∙ ap (write (stamped clock now severity message w)) (h _ w)

    -- The clock went on.
    pub write_message-clock :
        (severity : Severity) (message : String) (w : W)
        → IsKept writer clock
        → clock.get (write_message W severity message (record { log_cfg = cfg; world = w })).world
          ≡ (now (clock.get w)).1
    unfolding write_message capture captured_write captured_now
    write_message-clock severity message w h = h _ _ ∙ clock.get-set _ w

    -- Everything else is as before.
    pub write_message-else :
        {V : Type 0} (other : Place W V) (severity : Severity) (message : String) (w : W)
        → IsKept writer other
        → IsKept clock other
        → other.get (write_message W severity message (record { log_cfg = cfg; world = w })).world
          ≡ other.get w
    unfolding write_message capture captured_write captured_now
    write_message-else other severity message w h k = h _ _ ∙ k _ w
