-- ===== src/Runs/Store/Streams.antt =====
-- app/runs/store.py: the event stream and the log of a run. `dumps` and `loads` are the JSON library,
-- which takes no notice of white space around a line; an event is any value.
use seapath_webui.Common.{
  ℕ, zero, suc, Text, drop, is_empty, strip, Bool, true, false, Option, none, some, List, [], ◌∷◌,
  ◌++◌, map, All, if◌then◌else◌, ◌≡◌, refl, ap, sym, ◌∙◌, append_assoc, append_nil, nat_eq, ◌||◌,
  ◌⊎◌, inl, inr, Bool-cases,
}
use seapath_webui.Common.Lines.{
  newline, carriage_return, unlines, file_lines, lines_from-unlines, lines_from-one,
}

-- The files of a run's directory, where the directory is there.
pub record Streams : Type 0 where
  pub events_file : Option Text
  pub log_file : Option Text
  pub site_inventory : Option Text
  pub flat_inventory : Option Text

abbrev content_of : Option Text → Text
content_of none = []
content_of (some content) = content

-- RunStore.append_log
unfoldable pub append_log : Text → Streams → Streams
append_log text streams = record streams { log_file = some (content_of (streams.log_file) ++ text) }

-- RunStore.log
unfoldable pub log : Option Streams → Text
log none = []
log (some streams) = content_of (streams.log_file)

abbrev first_content : Option Text → Option Text → Text
first_content none other = content_of other
first_content (some content) other = content

-- RunStore.inventory_of: the staged folder first, then the flat copy.
unfoldable pub inventory_of : Option Streams → Text
inventory_of none = []
inventory_of (some streams) = first_content (streams.site_inventory) (streams.flat_inventory)

-- No line of a file ends in the text.
abbrev pub Unbroken : Text → Type 0
Unbroken s = All (λ c. (nat_eq c newline || nat_eq c carriage_return) ≡ false) s

module _ {E : Type 0} (dumps : E → Text) (loads : Text → Option E) where
  -- RunStore.append_event
  unfoldable pub append_event : E → Streams → Streams
  append_event event streams = record streams {
    events_file = some (content_of (streams.events_file) ++ (dumps event ++ newline ∷ []));
  }

  unfoldable pub append_events : List E → Streams → Streams
  unfolding append_event
  append_events [] streams = streams
  append_events (event ∷ rest) streams = append_events rest (append_event event streams)

  abbrev and_event : Option E → List E → List E
  and_event none rest = rest
  and_event (some event) rest = event ∷ rest

  -- A blank line, and one that is no JSON, is left out.
  unfoldable pub parsed : List Text → List E
  unfolding strip
  parsed [] = []
  parsed (line ∷ lines) =
      let rest = parsed lines in if is_empty (strip line) then rest else and_event (loads line) rest

  abbrev events_in : ℕ → Option Text → List E
  events_in offset none = []
  events_in offset (some content) = parsed (drop offset (file_lines content))

  -- RunStore.events: from a given index, for a client that reconnected.
  unfoldable pub events : ℕ → Streams → List E
  unfolding parsed file_lines
  events offset streams = events_in offset (streams.events_file)

  -- What the JSON library is documented to do with an event: a line of its own, read back.
  abbrev pub IsDumped : E → Type 0
  IsDumped event =
      Unbroken (dumps event)
      × (is_empty (strip (dumps event)) ≡ false)
      × (loads (dumps event) ≡ some event)

  -- A write that the machine cut short: a part of a line, which is no JSON.
  abbrev pub cut_short : Text → Streams → Streams
  cut_short part streams = record streams {
    events_file = some (content_of (streams.events_file) ++ part);
  }

  parsed-dumps :
      (written : List E) (tail : List Text)
      → All IsDumped written
      → parsed tail ≡ []
      → parsed (map dumps written ++ tail) ≡ written
  unfolding parsed
  parsed-dumps [] tail h e = e
  parsed-dumps (event ∷ written) tail (one, h) e =
      let (whole, some_char, reads) = one in
      rw (some_char, reads, parsed-dumps written tail h e) refl

  parsed-drop :
      (offset : ℕ) (written : List E) (part : Text)
      → All IsDumped written
      → parsed (if is_empty part then [] else part ∷ []) ≡ []
      → parsed (drop offset (map dumps written ++ (if is_empty part then [] else part ∷ [])))
        ≡ drop offset written
  unfolding parsed
  parsed-drop zero written part h e =
      parsed-dumps written (if is_empty part then [] else part ∷ []) h e
  parsed-drop (suc offset) [] [] h e = refl
  parsed-drop (suc offset) [] (c ∷ part) h e = drops_nothing offset
    where
      drops_nothing : (n : ℕ) → parsed (drop n []) ≡ []
      drops_nothing zero = refl
      drops_nothing (suc n) = refl
  parsed-drop (suc offset) (event ∷ written) part (one, h) e = parsed-drop offset written part h e

  content-append_events :
      (written : List E) (streams : Streams)
      → content_of ((append_events written streams).events_file)
        ≡ content_of (streams.events_file) ++ unlines (map dumps written)
  unfolding append_events append_event unlines
  content-append_events [] streams = sym (append_nil (content_of (streams.events_file)))
  content-append_events (event ∷ written) streams =
      content-append_events written (append_event event streams)
      ∙ (append_assoc (content_of (streams.events_file)) (dumps event ++ newline ∷ [])
            (unlines (map dumps written))
          ∙ ap (λ t. content_of (streams.events_file) ++ t)
              (append_assoc (dumps event) (newline ∷ []) (unlines (map dumps written))))

  dumped-Unbroken : (written : List E) → All IsDumped written → All Unbroken (map dumps written)
  dumped-Unbroken [] h = tt
  dumped-Unbroken (event ∷ written) (one, h) = (one.0, dumped-Unbroken written h)

  parsed-part :
      (part : Text)
      → (loads part ≡ none) ⊎ (is_empty (strip part) ≡ true)
      → parsed (if is_empty part then [] else part ∷ []) ≡ []
  unfolding parsed
  parsed-part [] lost = refl
  parsed-part (c ∷ part) (inl e) = elim (Bool-cases (is_empty (strip (c ∷ part)))) [
    | inl blank ↦ rw blank refl
    | inr some_char ↦ rw (some_char, e) refl
  ]
  parsed-part (c ∷ part) (inr e) = rw e refl

  -- A client that reconnects with the number of events it has seen gets exactly those that were
  -- appended after them, in order, and the write that the machine cut short, if any, adds none. The
  -- stream was empty at first, each event is dumped as one line that is read back, and the part of a
  -- line that was cut short is no JSON or is blank.
  pub events-append_events :
      (offset : ℕ) (written : List E) (part : Text) (streams : Streams)
      → streams.events_file ≡ none
      → All IsDumped written
      → Unbroken part
      → (loads part ≡ none) ⊎ (is_empty (strip part) ≡ true)
      → events offset (cut_short part (append_events written streams)) ≡ drop offset written
  unfolding events file_lines
  events-append_events offset written part streams fresh h whole lost =
      let ends : ℕ → Bool = λ c. nat_eq c newline || nat_eq c carriage_return in
      ap (λ t. parsed (drop offset (file_lines (t ++ part))))
        (content-append_events written streams
          ∙ ap (λ o. content_of o ++ unlines (map dumps written)) fresh)
      ∙ (ap (λ ls. parsed (drop offset ls))
            (lines_from-unlines ends (map dumps written) part refl (dumped-Unbroken written h)
              ∙ ap (λ l. map dumps written ++ l) (lines_from-one ends part whole))
          ∙ parsed-drop offset written part h (parsed-part part lost))
