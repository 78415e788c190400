-- ===== src/Logging/Logger/Formatters.antt =====
-- `setFormatters` of src/logger.cpp against what the items of a pattern stand for.
use net_base.Base.{
  OnSome, ◌≡◌, refl, sym, ap, ◌∙◌, List, [], ◌∷◌, ◌++◌, some, Bytes, ◌==◌, if◌then◌else◌, map,
  append_assoc, append-nil,
}
use net_base.Logging.Pattern
use net_base.Logging.Pattern.{Item, keyed, log_pattern_parse}
use net_base.Logging.Pattern.Printing.{print_items, ArePrintable, log_pattern_parse-print_items}
use net_base.Logging.Logger.{
  Logger, FormatterFunc, string_formatter, add_item, add_items, add_one_formatter, date_pattern,
  formatter_for, get_formatter, set_formatters,
}

-- The formatter of an item.
abbrev pub formatter_of : Item → FormatterFunc
formatter_of (Pattern.text s) = string_formatter s
formatter_of (keyed [] fmt) = string_formatter []
formatter_of (keyed (k ∷ key) fmt) = formatter_for (k ∷ key) (get_formatter k)

-- The date pattern of the last `%d`, or `d` without one.
abbrev pub last_date : Bytes → List Item → Bytes
last_date d [] = d
last_date d (Pattern.text s ∷ items) = last_date d items
last_date d (keyed [] fmt ∷ items) = last_date d items
last_date d (keyed (k ∷ key) fmt ∷ items) =
    last_date (if k == b'd' then date_pattern fmt else d) items

module _ {F : Type 0} where
  behind :
      (l : Logger F) (i : Item) (d : Bytes) (items : List Item)
      → some (record l {
        datetime_pattern = d;
        formatters = (l.formatters ++ formatter_of i ∷ []) ++ map formatter_of items;
      })
        ≡ some (record l {
          datetime_pattern = d;
          formatters = l.formatters ++ map formatter_of (i ∷ items);
        })
  behind l i d items =
      ap (λ fs. some (record l { datetime_pattern = d; formatters = fs }))
        (append_assoc l.formatters (formatter_of i ∷ []) (map formatter_of items))

  add_items-formatters :
      (items : List Item) (l : Logger F)
      → ArePrintable items
      → add_items items l
        ≡ some (record l {
          datetime_pattern = last_date l.datetime_pattern items;
          formatters = l.formatters ++ map formatter_of items;
        })
  unfolding add_items add_item add_one_formatter
  add_items-formatters [] l h =
      ap (λ fs. some (record l { formatters = fs })) (sym (append-nil l.formatters))
  add_items-formatters (Pattern.text s ∷ items) l (n, p, t, h) =
      add_items-formatters items (add_one_formatter (string_formatter s) l) h
      ∙ behind l (Pattern.text s) (last_date l.datetime_pattern items) items
  add_items-formatters (keyed [] fmt ∷ items) l (n, a, f, s, h) = absurd (n refl)
  add_items-formatters (keyed (k ∷ key) fmt ∷ items) l (n, a, f, s, h) =
      let pattern = if k == b'd' then date_pattern fmt else l.datetime_pattern in
      add_items-formatters items
        (add_one_formatter (formatter_for (k ∷ key) (get_formatter k))
          (record l { datetime_pattern = pattern }))
        h
      ∙ behind l (keyed (k ∷ key) fmt) (last_date pattern items) items

  -- A logger that is given printed, printable items as its pattern has one formatter for each
  -- item, in order, whatever formatters it had; all its dates are printed by the pattern of the
  -- last `%d`.
  pub set_formatters-print_items :
      (items : List Item) (l : Logger F)
      → ArePrintable items
      → set_formatters (print_items items) l
        ≡ some (record l {
          datetime_pattern = last_date l.datetime_pattern items;
          formatters = map formatter_of items;
        })
  unfolding set_formatters
  set_formatters-print_items items l h =
      ap (λ is. add_items is (record l { formatters = [] })) (log_pattern_parse-print_items items h)
      ∙ add_items-formatters items (record l { formatters = [] }) h

  add_items-level :
      (items : List Item) (l : Logger F) → OnSome (λ m. m.level ≡ l.level) (add_items items l)
  unfolding add_items add_item add_one_formatter
  add_items-level [] l = refl
  add_items-level (Pattern.text s ∷ items) l =
      add_items-level items (add_one_formatter (string_formatter s) l)
  add_items-level (keyed [] fmt ∷ items) l = tt
  add_items-level (keyed (k ∷ key) fmt ∷ items) l =
      let pattern = if k == b'd' then date_pattern fmt else l.datetime_pattern in
      add_items-level items (
        add_one_formatter (formatter_for (k ∷ key) (get_formatter k))
          (record l { datetime_pattern = pattern }))

  -- setFormatters leaves the level alone.
  pub set_formatters-level :
      (pattern : Bytes) (l : Logger F) → OnSome (λ m. m.level ≡ l.level) (set_formatters pattern l)
  unfolding set_formatters
  set_formatters-level pattern l =
      add_items-level (log_pattern_parse pattern) (record l { formatters = [] })
