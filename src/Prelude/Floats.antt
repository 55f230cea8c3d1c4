-- ===== src/Prelude/Floats.antt =====
-- What the program uses of Python's `float`: conversion, product, comparison, and the two formats of
-- `struct.unpack`. The values are never computed with in the proofs, so the type is a parameter.
use Prim.Native.Nat.{ℕ}
use mathlib.Core.Bool.{Bool}
use mathlib.Core.List.{List}
use Prim.Native.String.{String}
use zhiwei_backend.Prelude.Int.{ℤ}

pub record Floats : Type 1 where
  pub Float : Type 0
  -- `float(n)` of an int
  pub of_int : ℤ → Float
  pub mul : Float → Float → Float
  pub lt : Float → Float → Bool
  pub le : Float → Float → Bool
  pub eq : Float → Float → Bool
  -- `struct.unpack(">f", …)[0]` and `struct.unpack(">d", …)[0]`
  pub unpack_f : List ℕ → Float
  pub unpack_d : List ℕ → Float
  -- `str(x)`, as an f-string writes it
  pub show : Float → String
