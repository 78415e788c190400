-- ===== src/Logging/Flushers/Names.antt =====
-- `logFileNameParse` of src/logging/logger_filename.cpp on patterns with one date.
use net_base.Base.{
  ℕ, ◌≡◌, ◌≢◌, sym, ap, ◌∙◌, Bool, true, false, List, [], ◌∷◌, ◌++◌, some, Bytes, ==-ne, ◌>>=◌,
  append_assoc, append-nil,
}
use net_base.Logging.Pattern.{Item, text, keyed}
use net_base.Logging.Pattern.Printing.{print_items, ArePrintable, log_pattern_parse-print_items}
use net_base.Logging.Flushers.{
  add_to, LogFilenameData, Parsing, start, add_text, add_date, name_part, name_item, name_items,
  log_file_name_parse,
}

-- The items hold no date, and no empty key.
abbrev pub HasNoDate : List Item → Type 0
HasNoDate [] = Unit {0}
HasNoDate (text s ∷ items) = HasNoDate items
HasNoDate (keyed [] fmt ∷ items) = ⊥
HasNoDate (keyed (k ∷ key) fmt ∷ items) = (k ≢ b'd') × HasNoDate items

module _ (host_name : Bytes) (pid : ℕ) where
  -- What items without a date stand for in a file's name.
  abbrev pub rendered : List Item → Bytes
  rendered [] = []
  rendered (text s ∷ items) = s ++ rendered items
  rendered (keyed [] fmt ∷ items) = rendered items
  rendered (keyed (k ∷ key) fmt ∷ items) = name_part host_name pid k ++ rendered items

  add_to-append :
      (b : Bool) (s t : Bytes) (d : LogFilenameData)
      → add_to b t (add_to b s d) ≡ add_to b (s ++ t) d
  unfolding add_to
  add_to-append true s t d = ap (λ u. record d { prefix = u }) (append_assoc d.prefix s t)
  add_to-append false s t d = ap (λ u. record d { postfix = u }) (append_assoc d.postfix s t)

  add_to-nil : (b : Bool) (d : LogFilenameData) → add_to b [] d ≡ d
  unfolding add_to
  add_to-nil true d = ap (λ u. record d { prefix = u }) (append-nil d.prefix)
  add_to-nil false d = ap (λ u. record d { postfix = u }) (append-nil d.postfix)

  add_text-append : (s t : Bytes) (p : Parsing) → add_text t (add_text s p) ≡ add_text (s ++ t) p
  unfolding add_text
  add_text-append s t p = ap (λ d. record p { data_ = d }) (add_to-append p.in_pre s t p.data_)

  name_items-rendered :
      (items rest : List Item) (p : Parsing)
      → HasNoDate items
      → name_items host_name pid (items ++ rest) p
        ≡ name_items host_name pid rest (add_text (rendered items) p)
  unfolding name_items name_item add_text
  name_items-rendered [] rest p h =
      ap (λ d. name_items host_name pid rest (record p { data_ = d }))
        (sym (add_to-nil p.in_pre p.data_))
  name_items-rendered (text s ∷ items) rest p h =
      name_items-rendered items rest (add_text s p) h
      ∙ ap (name_items host_name pid rest) (add_text-append s (rendered items) p)
  name_items-rendered (keyed [] fmt ∷ items) rest p h = absurd h
  name_items-rendered (keyed (k ∷ key) fmt ∷ items) rest p (n, h) = rw (==-ne k b'd' n) (
      name_items-rendered items rest (add_text (name_part host_name pid k) p) h
      ∙ ap (name_items host_name pid rest)
          (add_text-append (name_part host_name pid k) (rendered items) p))

  name_items-date :
      (before after : List Item) (key fmt : Bytes)
      → HasNoDate before
      → HasNoDate after
      → name_items host_name pid (before ++ (keyed (b'd' ∷ key) fmt ∷ after)) start
        ≡ some (record {
          in_pre = false;
          data_ = record { prefix = rendered before; postfix = rendered after; date_time = fmt };
        })
  unfolding name_items name_item add_text add_to add_date
  name_items-date before after key fmt h g =
      name_items-rendered before (keyed (b'd' ∷ key) fmt ∷ after) start h
      ∙ ap (λ is. name_items host_name pid is dated) (sym (append-nil after))
      ∙ name_items-rendered after [] dated g
    where
      dated : Parsing
      dated = add_date fmt (add_text (rendered before) start)

  -- A printed pattern with one date is taken apart at that date: the prefix is what the items
  -- before it stand for, the postfix what those behind it stand for.
  pub log_file_name_parse-print_items :
      (before after : List Item) (key fmt : Bytes)
      → ArePrintable (before ++ (keyed (b'd' ∷ key) fmt ∷ after))
      → HasNoDate before
      → HasNoDate after
      → log_file_name_parse host_name pid (print_items (before ++ (keyed (b'd' ∷ key) fmt ∷ after)))
        ≡ some (record { prefix = rendered before; postfix = rendered after; date_time = fmt })
  unfolding log_file_name_parse
  log_file_name_parse-print_items before after key fmt p h g =
      ap (λ is. name_items host_name pid is start >>= λ p. some p.data_)
        (log_pattern_parse-print_items (before ++ (keyed (b'd' ∷ key) fmt ∷ after)) p)
      ∙ ap (λ o. o >>= λ p. some p.data_) (name_items-date before after key fmt h g)
