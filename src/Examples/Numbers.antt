-- ===== src/Examples/Numbers.antt =====
-- Whole numbers in the place of floats: what the examples compute with.
use swarmsim.Base.{
  ◌≡◌, true, false, zero, suc, ℕ, ◌+◌, Bool, ◌*◌, arith, if◌then◌else◌, leb, ◌/◌, ◌-◌, ◌&&◌, not,
  ◌||◌,
}
use swarmsim.Float.{Float, IsOrdered, IsStrict}
pub use swarmsim.Int.{ℤ, pos, negsuc}

abbrev pub negate : ℤ → ℤ
negate (pos zero) = pos 0
negate (pos (suc n)) = negsuc n
negate (negsuc n) = pos (suc n)

abbrev difference : ℕ → ℕ → ℤ
difference m n = if leb n m then pos (m - n) else negsuc (n - m - 1)

abbrev plus : ℤ → ℤ → ℤ
plus (pos a) (pos b) = pos (a + b)
plus (pos a) (negsuc b) = difference a (b + 1)
plus (negsuc a) (pos b) = difference b (a + 1)
plus (negsuc a) (negsuc b) = negsuc (a + b + 1)

abbrev size : ℤ → ℕ
size (pos n) = n
size (negsuc n) = n + 1

abbrev is_negative : ℤ → Bool
is_negative (pos n) = false
is_negative (negsuc n) = true

abbrev signed : ℤ → ℤ → ℕ → ℤ
signed a b n =
    if (is_negative a && is_negative b) || not (is_negative a || is_negative b)
    then pos n
    else negate (pos n)

-- The greatest number up to `k` whose square is at most `n`.
abbrev root_upto : ℕ → ℕ → ℕ
root_upto zero n = 0
root_upto (suc k) n = let lower = root_upto k n in if leb (suc k * suc k) n then suc k else lower

abbrev at_most : ℤ → ℤ → Bool
at_most (pos a) (pos b) = leb a b
at_most (pos a) (negsuc b) = false
at_most (negsuc a) (pos b) = true
at_most (negsuc a) (negsuc b) = leb b a

abbrev root : ℤ → ℤ
root (pos n) = pos (root_upto n n)
root (negsuc n) = pos 0

instance abbrev pub float_of_whole : Float ℤ
float_of_whole = record {
  of_nat = pos;
  neg = negate;
  add = plus;
  sub = λ a b. plus a (negate b);
  mul = λ a b. signed a b (size a * size b);
  div = λ a b. signed a b (size a / size b);
  sqrt = root;
  exp = λ a. pos 1;
  hypot = λ a b. root (plus (signed a a (size a * size a)) (signed b b (size b * size b)));
  round = λ a digits. a;
  lt = λ a b. not (at_most b a);
  le = at_most;
  is_nan = λ a. false;
}

pub float_of_whole-IsOrdered : IsOrdered float_of_whole
float_of_whole-IsOrdered = record {
  not_lt_of_le = λ x y h. ground arith;
  not_le_of_lt = λ x y h. ground arith;
  not_lt_self = λ n. ground arith;
}

pub float_of_whole-IsStrict : IsStrict float_of_whole
float_of_whole-IsStrict = record { lt_trans = trans; lt_irrefl = irrefl; lt_between = between }
  where
    trans :
        (x y z : ℤ)
        → float_of_whole.lt x y ≡ true
        → float_of_whole.lt y z ≡ true
        → float_of_whole.lt x z ≡ true
    trans (pos a) (pos b) (pos c) h k = ground arith
    trans (pos a) (pos b) (negsuc c) h k = ground arith
    trans (pos a) (negsuc b) z h k = ground arith
    trans (negsuc a) (pos b) (pos c) h k = ground arith
    trans (negsuc a) (pos b) (negsuc c) h k = ground arith
    trans (negsuc a) (negsuc b) (pos c) h k = ground arith
    trans (negsuc a) (negsuc b) (negsuc c) h k = ground arith

    irrefl : (x : ℤ) → float_of_whole.lt x x ≡ false
    irrefl (pos a) = ground arith
    irrefl (negsuc a) = ground arith

    between :
        (x y z : ℤ)
        → false ≡ false
        → float_of_whole.lt x z ≡ true
        → float_of_whole.lt x y ≡ false
        → float_of_whole.lt y z ≡ true
    between (pos a) (pos b) (pos c) n h k = ground arith
    between (pos a) (pos b) (negsuc c) n h k = ground arith
    between (pos a) (negsuc b) (pos c) n h k = ground arith
    between (pos a) (negsuc b) (negsuc c) n h k = ground arith
    between (negsuc a) (pos b) (pos c) n h k = ground arith
    between (negsuc a) (pos b) (negsuc c) n h k = ground arith
    between (negsuc a) (negsuc b) (pos c) n h k = ground arith
    between (negsuc a) (negsuc b) (negsuc c) n h k = ground arith
