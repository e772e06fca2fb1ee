-- ===== src/JsonLog/Writer/Fixed.antt =====
-- A serializer that meets the laws of the interface, an item and a clock.
use the_pipe.Base.{
  ℕ, zero, suc, ◌≤◌, ◌<◌, ◌≡◌, refl, sym, Bool, true, false, List, [], ◌∷◌, length, take, drop,
  take-append-drop, arith,
}
use the_pipe.Base.Int.{ℤ, pos}
use the_pipe.Jopp.Sample.{Fields}
use the_pipe.Log.{Item, error}
use the_pipe.JsonLog.Converter.{Seconds}
use the_pipe.JsonLog.Writer.{Serializer}

-- Whole seconds.
abbrev pub exact : Seconds ℤ
exact = record { of_ticks = λ a. a; to_ticks = λ a. a }

abbrev pub disk : Item
disk = record { when = pos 3; severity = error; message = "disk" }

unfoldable pub is_nil : List ℕ → Bool
is_nil [] = true
is_nil (b ∷ bs) = false

pub nil_of_is_nil : (bs : List ℕ) → is_nil bs ≡ true → bs ≡ []
unfolding is_nil
nil_of_is_nil [] e = refl
nil_of_is_nil (b ∷ bs) e = cc

pub taken_of_more :
    (bs : List ℕ) (size : ℕ) → 0 < size → is_nil (drop size bs) ≡ false → 0 < length (take size bs)
unfolding is_nil
taken_of_more bs zero h e = absurd (omega arith)
taken_of_more [] (suc size) h e = cc
taken_of_more (b ∷ bs) (suc size) h e = omega arith

pub length-take-le : (bs : List ℕ) (size : ℕ) → length (take size bs) ≤ size
length-take-le bs zero = omega arith
length-take-le [] (suc size) = omega arith
length-take-le (b ∷ bs) (suc size) = omega (arith, length-take-le bs size)

-- A serializer that hands out a fixed text.
abbrev pub fixed_text : Serializer Fields
fixed_text = record {
  State = List ℕ;
  text = λ o. b'{' ∷ b'0' ∷ b'}' ∷ [];
  start = λ o. b'{' ∷ b'0' ∷ b'}' ∷ [];
  serialize = λ s size. (drop size s, take size s, is_nil (drop size s));
  pending = λ s. s;
  pending-start = λ o. refl;
  pending-serialize = λ s size. sym (take-append-drop size s);
  serialize-completed = λ s size. nil_of_is_nil (drop size s);
  serialize-more = taken_of_more;
  serialize-fits = length-take-le;
}
