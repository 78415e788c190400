-- ===== src/Printing/Tests.antt =====
-- A container of scalars, a pair and another container, and the marks of a test case.
use net_base.Base.{◌≡◌, refl, [], ◌∷◌, ◌++◌, some, codes, arith}
use net_base.Printing.{
  Printable, scalar, pair, container, no_items, item, do_print, do_print_container, print_container,
  print_nested, print_dividing, numbered_marker, print_sub, case_marker_dtor,
}
use net_base.Printing.Parsing.{parse, parse-do_print, size, IsReadable}

abbrev mixed : Printable
mixed = container (
    item (scalar (codes "1")) (
      item (pair (codes "k") (codes "v"))
        (item (container (item (scalar (codes "22")) no_items)) no_items)))

mixed_run : do_print_container mixed ≡ codes "{1,[k,v] ,{22}}\n"
unfolding do_print_container do_print
mixed_run = refl

nested_run :
    print_nested b'\n' ((codes "1" ∷ codes "2" ∷ []) ∷ (codes "3" ∷ []) ∷ []) ≡ codes "1 2 \n3 \n"
unfolding print_nested print_container
nested_run = refl

mixed-IsReadable : IsReadable mixed
mixed-IsReadable = ((refl, tt), (((refl, tt), (refl, tt)), (((refl, (refl, tt)), tt), tt)))

parse-do_print_example : parse (size mixed) (do_print mixed ++ []) ≡ some (mixed, [])
parse-do_print_example = parse-do_print (size mixed) mixed [] mixed-IsReadable tt (omega arith)

sub_run : (print_sub (print_sub (numbered_marker 4).0).0).1 ≡ codes "--- 2 ---\n"
unfolding print_sub numbered_marker
sub_run = refl

end_run : case_marker_dtor (numbered_marker 4).0 ≡ codes "==========end case5==========\n\n"
unfolding case_marker_dtor numbered_marker print_dividing
end_run = refl
