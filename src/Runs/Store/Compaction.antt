-- ===== src/Runs/Store/Compaction.antt =====
-- app/runs/store.py: the event files of ansible-runner, folded into one file once a run has ended. An
-- event's file is its counter and the event, or none where it is no JSON.
use seapath_webui.Common.{ℕ, leb, Option, none, some, List, [], ◌∷◌, map, if◌then◌else◌, ◌≡◌, refl}

abbrev pub Counted : Type 0 → Type 0
Counted E = ℕ × E

-- One job: its files, where their directory is there, and the archive that replaces it.
pub record Job (E : Type 0) : Type 0 where
  pub files : Option (List (Option (Counted E)))
  pub archive : Option (List E)

-- What fails: writing and renaming the archive, or removing the directory after it, of whose files some
-- are left.
pub data CompactFault (E : Type 0) : Type 0 where
  archiving : CompactFault E
  removing : List (Option (Counted E)) → CompactFault E

module _ {E : Type 0} where
  unfoldable pub readable_events : List (Option (Counted E)) → List (Counted E)
  readable_events [] = []
  readable_events (none ∷ files) = readable_events files
  readable_events (some event ∷ files) = event ∷ readable_events files

  unfoldable pub insert_counted : Counted E → List (Counted E) → List (Counted E)
  insert_counted x [] = x ∷ []
  insert_counted x (y ∷ rest) =
      let later = insert_counted x rest in if leb (x.0) (y.0) then x ∷ y ∷ rest else y ∷ later

  -- events.sort(key=counter)
  unfoldable pub by_counter : List (Counted E) → List (Counted E)
  unfolding insert_counted
  by_counter [] = []
  by_counter (x ∷ rest) = insert_counted x (by_counter rest)

  abbrev pub archive_of : List (Option (Counted E)) → List E
  archive_of files = map (λ e. e.1) (by_counter (readable_events files))

  abbrev compacted : Option (CompactFault E) → List (Option (Counted E)) → Option (List E) → Job E
  compacted none files held = record { files = none; archive = some (archive_of files) }
  compacted (some archiving) files held = record { files = some files; archive = held }
  compacted (some (removing left)) files held = record {
    files = some left;
    archive = some (archive_of files);
  }

  abbrev compact_files :
      Option (CompactFault E) → Option (List (Option (Counted E))) → Option (List E) → Job E
  compact_files fault none held = record { files = none; archive = held }
  compact_files fault (some files) held = compacted fault files held

  unfoldable pub compact_job : Option (CompactFault E) → Job E → Job E
  unfolding by_counter readable_events
  compact_job fault job = compact_files fault (job.files) (job.archive)

  -- RunStore.compact: `fault` is what fails of a job.
  unfoldable pub compact : (Job E → Option (CompactFault E)) → List (Job E) → List (Job E)
  unfolding compact_job
  compact fault jobs = map (λ job. compact_job (fault job) job) jobs

  -- Where a job's directory was removed in part after its archive was in place, a second compaction
  -- replaces that archive by the files that were left.
  pub compact_job-removing :
      (files left : List (Option (Counted E))) (held : Option (List E))
      → compact_job none
          (compact_job (some (removing left)) (record { files = some files; archive = held }))
        ≡ record { files = none; archive = some (archive_of left) }
  unfolding compact_job
  compact_job-removing files left held = refl
