-- ===== src/Printing.antt =====
-- include/base/print_helper.h: the printing of containers, and the marks that CaseMarker and
-- BaseField print. A scalar is the text that std::cout prints of it; what is printed is the text
-- added to std::cout. Strings as elements of a container that doPrint prints are left out. The static counters of the classes are arguments; an exception is `none`.
pub mod Parsing
mod Tests
use net_base.Base.{
  ℕ, zero, suc, ◌+◌, Bool, true, false, List, [], ◌∷◌, ◌++◌, Option, none, some, Bytes, codes,
  decimal, replicate,
}

mutual
  -- What doPrint is called with: a scalar, a pair of scalars, or a container.
  pub data Printable : Type 0 where
    scalar : Bytes → Printable
    pair : (first second : Bytes) → Printable
    container : Items → Printable

  pub data Items : Type 0 where
    no_items : Items
    item : Printable → Items → Items

-- operator<< for a pair
abbrev pub print_pair : Bytes → Bytes → Bytes
print_pair first second = b'[' ∷ (first ++ (b',' ∷ (second ++ (b']' ∷ b' ' ∷ []))))

mutual
  -- doPrint
  pub do_print : Printable → Bytes
  do_print (scalar text) = text
  do_print (pair first second) = print_pair first second
  do_print (container items) = b'{' ∷ (print_items items ++ b'}' ∷ [])

  -- The elements, with a comma behind all but the last.
  pub print_items : Items → Bytes
  print_items no_items = []
  print_items (item v no_items) = do_print v
  print_items (item v (item w rest)) = do_print v ++ b',' ∷ print_items (item w rest)

-- doPrintContainer
pub do_print_container : Printable → Bytes
do_print_container v = do_print v ++ b'\n' ∷ []

-- printContainer, for elements that std::cout prints
pub print_container : ℕ → List Bytes → Bytes
print_container divider [] = []
print_container divider (i ∷ is) = i ++ (divider ∷ print_container divider is)

-- printContainer, for a vector of containers
pub print_nested : ℕ → List (List Bytes) → Bytes
unfolding print_container
print_nested divider [] = []
print_nested divider (i ∷ is) = print_container b' ' i ++ (divider ∷ print_nested divider is)

-- printDividing
pub print_dividing : Bytes → Bytes
print_dividing s = replicate 10 b'=' ++ (s ++ (replicate 10 b'=' ++ b'\n' ∷ []))

-- BaseField: its number, and what its constructor and destructor print.
pub base_field_ctor : ℕ → ℕ × Bytes
base_field_ctor construct_time =
    (suc construct_time, codes "BaseField Ctor--" ++ (decimal (suc construct_time) ++ b'\n' ∷ []))

pub base_field_dtor : ℕ → Bytes
base_field_dtor construct_time_ =
    codes "BaseField Dtor--" ++ (decimal construct_time_ ++ b'\n' ∷ [])

-- CaseMarker
pub record CaseMarker : Type 0 where
  pub time_ : ℕ
  pub sub_counter_ : ℕ
  pub marker_ : Bytes

-- CaseMarker(), with the static counter before and behind it
pub numbered_marker : ℕ → CaseMarker × ℕ × Bytes
unfolding print_dividing
numbered_marker time = (
  record { time_ = suc time; sub_counter_ = 0; marker_ = [] },
  suc time,
  print_dividing (codes "run case" ++ decimal (suc time)),
)

-- CaseMarker(const std::string&); `time` is what stands in the member that is not initialized.
pub named_marker : ℕ → Bytes → Option (CaseMarker × Bytes)
unfolding print_dividing
named_marker time [] = none
named_marker time (c ∷ marker) = some (
  record { time_ = time; sub_counter_ = 0; marker_ = c ∷ marker },
  print_dividing (codes "run case " ++ c ∷ marker),
)

next_sub : CaseMarker → CaseMarker
next_sub m = record m { sub_counter_ = suc m.sub_counter_ }

-- printSub(const std::string&)
pub print_sub_named : Bytes → CaseMarker → Option (CaseMarker × Bytes)
unfolding next_sub
print_sub_named [] m = none
print_sub_named (c ∷ sub_marker) m = some (
  next_sub m,
  codes "--- " ++ (decimal (suc m.sub_counter_) ++ (b':' ∷ ((c ∷ sub_marker) ++ codes " ---\n"))),
)

-- printSub()
pub print_sub : CaseMarker → CaseMarker × Bytes
unfolding next_sub
print_sub m = (next_sub m, codes "--- " ++ (decimal (suc m.sub_counter_) ++ codes " ---\n"))

-- ~CaseMarker
end_text : CaseMarker → Bytes → Bytes
end_text m [] = codes "end case" ++ decimal m.time_
end_text m (c ∷ marker) = codes "end case " ++ c ∷ marker

pub case_marker_dtor : CaseMarker → Bytes
unfolding end_text print_dividing
case_marker_dtor m = print_dividing (end_text m m.marker_) ++ b'\n' ∷ []
