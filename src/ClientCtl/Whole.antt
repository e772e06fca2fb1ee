-- ===== src/ClientCtl/Whole.antt =====
-- Concrete doubles and descriptors, which show that the laws of the parameters can hold.
use the_pipe.Base.{ℕ, ◌≤◌, ◌≡◌, refl, Bool, true, false, arith, ltb, ◌==◌}
use the_pipe.Base.Int.{ℤ, pos, negsuc}
use the_pipe.ClientCtl.StartupConfig.{int_max, Doubles, Fstat, socket, failed}

abbrev pub is_below_zero : ℤ → Bool
is_below_zero (pos n) = false
is_below_zero (negsuc n) = true

abbrev pub is_above_int_max : ℤ → Bool
is_above_int_max (pos n) = ltb int_max n
is_above_int_max (negsuc n) = false

abbrev pub equals : ℤ → ℤ → Bool
equals (pos a) (pos b) = a == b
equals (negsuc a) (negsuc b) = a == b
equals (pos a) (negsuc b) = false
equals (negsuc a) (pos b) = false

pub above_int_max : (n : ℕ) → n ≤ int_max → ltb int_max n ≡ false
above_int_max n h = ground arith

pub equals_self : (a : ℤ) → equals a a ≡ true
equals_self (pos n) = ground arith
equals_self (negsuc n) = ground arith

-- Doubles without fractions.
abbrev pub whole : Doubles ℤ
whole = record {
  of_int = λ a. a;
  to_int = λ a. a;
  is_below_zero = is_below_zero;
  is_above_int_max = is_above_int_max;
  equals = equals;
  of_int-below_zero = λ n. refl;
  of_int-negsuc = λ n. refl;
  of_int-above_int_max = above_int_max;
  to_int-of_int = λ n h. refl;
  equals-of_int = equals_self;
}

-- Descriptor 5 is a socket, and no other.
abbrev pub descriptors : ℤ → Fstat
descriptors fd = elim (equals fd (pos 5)) [ true ↦ socket | false ↦ failed 9 ]
