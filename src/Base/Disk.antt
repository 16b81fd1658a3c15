-- ===== src/Base/Disk.antt =====
-- The file layout of the stores: one file for each record, in a directory named for its status.
-- `os.ReadDir` lists a directory in the order of the names, so files stand in that order.
pub mod Laws
use Prim.Native.String.{String, compare}
use text.Mathlib.Text.{is_lt}
use mathlib.Core.Bool.{Bool, ◌&&◌}
use mathlib.Core.List.{List, [], ◌∷◌}
use mathlib.Core.Logic.{ite}
use mathlib.Core.Option.{Option, none, some}
use mnemosyne_os.Base.Tests.{if◌then◌else◌, decided, str_dec, All}

pub record Entry (D R : Type 0) : Type 0 where
  pub dir : D
  pub name : String
  pub body : R

-- What the operating system refuses in the course of one call.
pub record Faults : Type 0 where
  pub read_fails : Bool
  pub list_fails : Bool
  pub remove_fails : Bool
  pub write_fails : Bool

abbrev pub text_lt : String → String → Bool
text_lt a b = is_lt (compare a b)

module _ {D R : Type 0} (dec : Discrete D) where
  abbrev pub is_file : D → String → Entry D R → Bool
  is_file d n e = decided (dec e.dir d) && decided (str_dec e.name n)

  -- os.Stat and os.ReadFile
  unfoldable pub read : D → String → List (Entry D R) → Option R
  read d n [] = none
  read d n (e ∷ k) = if is_file d n e then some e.body else read d n k

  -- os.Remove
  unfoldable pub remove : D → String → List (Entry D R) → List (Entry D R)
  remove d n [] = []
  remove d n (e ∷ k) = let rest = remove d n k in if is_file d n e then rest else e ∷ rest

  -- The files of a directory, in the order of `os.ReadDir`.
  unfoldable pub list : D → List (Entry D R) → List (Entry D R)
  list d [] = []
  list d (e ∷ k) = let rest = list d k in ite (dec e.dir d) (e ∷ rest) rest

  -- The first of the directories that holds the file, with its contents.
  unfoldable pub find_in : List D → String → List (Entry D R) → Option (D × R)
  unfolding read
  find_in [] n k = none
  find_in (d ∷ ds) n k = elim (read d n k) [ some r ↦ some (d, r) | none ↦ find_in ds n k ]

module _ {D R : Type 0} where
  unfoldable pub insert : Entry D R → List (Entry D R) → List (Entry D R)
  insert e [] = e ∷ []
  insert e (f ∷ k) = if text_lt e.name f.name then e ∷ f ∷ k else f ∷ insert e k

-- os.WriteFile
unfoldable pub write :
    {D R : Type 0} → Discrete D → D → String → R → List (Entry D R) → List (Entry D R)
write dec d n r k = insert (record { dir = d; name = n; body = r }) (remove dec d n k)
