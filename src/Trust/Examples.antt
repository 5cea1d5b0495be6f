-- ===== src/Trust/Examples.antt =====
-- The theorems on the trust files, applied to files with lines of this service and of others.
use seapath_webui.Common.{
  take, Text, codes, ◌==◌, true, Option, none, some, List, [], ◌∷◌, filter, all, text_le,
  and-eq-true, or_false, Bool-cases, inl, inr, ◌∙◌, sym, eq_iff, subst, is_space, starts_with,
  strip, ◌≡◌, ◌≢◌, refl,
}
use seapath_webui.Common.Dict.{Dict, lookup}
use seapath_webui.Common.Names.{mem}
use seapath_webui.Common.Lines.{
  unlines, splitlines, splitlines-IsLine, fields, join, is_word_sound, IsLine,
}
use seapath_webui.Trust.AuthorizedKeys.{
  calls, performed, AuthorizedKey, Disk, Fault, changed, render, options, read, lines_of, install,
  remove,
}
use seapath_webui.Trust.AuthorizedKeys.Comments.{IsComment, foreign, carries}
use seapath_webui.Trust.AuthorizedKeys.Installs.{install_keeps}
use seapath_webui.Trust.AuthorizedKeys.Removals.{Whole, failed_write-target}
use seapath_webui.Trust.Service.{
  Trust, self_comment, self_line, restriction_addresses, relations, ensure_self_trust,
}
use seapath_webui.Trust.Service.Relation.{relations-ensure_self_trust}
use seapath_webui.Trust.KnownHosts.{KnownHosts, read_peers, read_local_host_keys, entry}
use seapath_webui.Trust.KnownHosts.Local.{ensure_local, local_entries}
use seapath_webui.Trust.KnownHosts.Record.{IsFormed, IsName, IsKey, holds}
use seapath_webui.Trust.KnownHosts.Held.{offers}
use seapath_webui.Trust.KnownHosts.Refines.{accept, forget, acts, specified_run, acts_refine}
use seapath_webui.Trust.KnownHosts.Live.{is_live, ensure_local-is_live}

abbrev key : AuthorizedKey
key = record {
  comment = codes "seapath-webui:a";
  public_key = codes "k b";
  from_addresses = [];
  allow_pty = true;
}

abbrev site_line : Text
site_line = codes "k s site"

abbrev old_line : Text
old_line = codes "restrict k o seapath-webui:a"

abbrev disk : Disk
disk = record {
  target = some (record {
    content = unlines (site_line ∷ old_line ∷ []);
    mode = 384;
    owner = record { uid = 1000; gid = 1000 };
  });
  temporary = none;
  directory = some (record { uid = 1000; gid = 1000 });
  readable = true;
  may_give = true;
  process = record { uid = 0; gid = 0 };
}

disk_read : read disk ≡ some (site_line ∷ old_line ∷ [])
unfolding read lines_of splitlines unlines
disk_read = refl

key-IsLine : IsLine (render key)
unfolding render options splitlines join
key-IsLine = (splitlines-IsLine (render key)).0

key-IsComment : IsComment (codes "seapath-webui:a")
unfolding starts_with is_space all
key-IsComment = (refl, is_word_sound (codes "seapath-webui:a") refl)

install_keeps_example :
    (left : List Text) × (read ((install none key disk).0) ≡ some left)
    × (filter foreign left ≡ filter foreign (site_line ∷ old_line ∷ []))
    × (filter (carries (codes "seapath-webui:a")) left ≡ render key ∷ [])
install_keeps_example =
    install_keeps key disk (site_line ∷ old_line ∷ []) disk_read key-IsLine key-IsComment

failed_write-target_example :
    Whole (site_line ∷ []) disk (performed (take 2 (calls (site_line ∷ []))) disk)
    × ((install (some Fault.renaming) key disk).0.target ≡ disk.target)
    × ((install (some Fault.renaming) key disk).1 ≢ changed true)
    × ((remove (some Fault.renaming) (codes "seapath-webui:a") disk).0.target ≡ disk.target)
    × ((remove (some Fault.renaming) (codes "seapath-webui:a") disk).1 ≢ changed true)
failed_write-target_example =
    failed_write-target 2 Fault.renaming key (codes "seapath-webui:a") (site_line ∷ []) disk

abbrev trust : Trust
trust = record { self_key = none; disk = disk }

self_line-IsLine : IsLine (render (self_line (codes "n") (codes "k b") []))
unfolding render options splitlines join self_line restriction_addresses mem ◌==◌ text_le
self_line-IsLine = (splitlines-IsLine (render (self_line (codes "n") (codes "k b") []))).0

self-IsComment : IsComment (self_comment (codes "n"))
unfolding starts_with is_space all
self-IsComment = (refl, is_word_sound (self_comment (codes "n")) refl)

relations-ensure_self_trust_example :
    relations (λ k. k) (codes "n") ((ensure_self_trust none (codes "k b") (codes "n") [] trust).0)
    ≡ some (
        record {
          comment = self_comment (codes "n");
          peer = codes "n";
          fingerprint = codes "k b";
          from_addresses = [];
          installed = true;
        }
        ∷ [])
relations-ensure_self_trust_example =
    relations-ensure_self_trust (λ k. k) (codes "k b") (codes "n") [] trust
      (site_line ∷ old_line ∷ []) disk_read self_line-IsLine self-IsComment

abbrev peers : Dict (List Text)
peers = (codes "p", codes "t b" ∷ []) ∷ []

p_IsName : IsName (codes "p")
unfolding starts_with is_space all
p_IsName = (is_word_sound (codes "p") refl, refl)

tb_IsKey : IsKey (codes "t b")
unfolding is_space all
tb_IsKey =
    (codes "t", codes "b", refl, is_word_sound (codes "t") refl, is_word_sound (codes "b") refl)

peers-IsFormed : IsFormed (offers peers)
unfolding mem
peers-IsFormed address k h =
    let (same, held) =
      and-eq-true (codes "p" == address) (mem k (codes "t b" ∷ [])) (sym (or_false _) ∙ h) in
    subst (λ a. IsName a × IsKey k) ((eq_iff (codes "p") address).0 same)
      (subst (λ x. IsName (codes "p") × IsKey x)
        ((eq_iff (codes "t b") k).0 (sym (or_false (codes "t b" == k)) ∙ held))
        (p_IsName, tb_IsKey))

abbrev empty : KnownHosts
empty = record { live = some site_line; accepted = none }

empty-IsFormed : IsFormed (holds (read_peers empty))
unfolding read_peers holds
empty-IsFormed address k h = cc

acts_refine_example :
    holds
      (read_peers (acts (accept peers ∷ forget (codes "q") ∷ []) empty))
      (codes "p")
      (codes "t b")
    ≡ specified_run
        (accept peers ∷ forget (codes "q") ∷ [])
        (holds (read_peers empty))
        (codes "p")
        (codes "t b")
acts_refine_example =
    acts_refine (accept peers ∷ forget (codes "q") ∷ []) empty empty-IsFormed
      (peers-IsFormed, (tt, tt)) (codes "p") (codes "t b")

abbrev own : List (Option Text)
own = some (codes "t b") ∷ none ∷ []

local_same : local_entries (read_local_host_keys own) (codes "p" ∷ []) ≡ peers
unfolding local_entries read_local_host_keys fields strip is_space
local_same = refl

holds-peers : (address k : Text) → holds peers address k ≡ offers peers address k
unfolding holds mem lookup
holds-peers address k = elim (Bool-cases (codes "p" == address)) [
  | inl e ↦ rw e (sym (or_false _))
  | inr e ↦ rw e refl
]

local-IsFormed : IsFormed (holds (local_entries (read_local_host_keys own) (codes "p" ∷ [])))
local-IsFormed =
    subst (λ d. IsFormed (holds d)) (sym local_same)
      (λ address k h. peers-IsFormed address k (sym (holds-peers address k) ∙ h))

ensure_local-is_live_example :
    is_live (entry (codes "p") (codes "t b")) ((ensure_local own (codes "p" ∷ []) empty).0) ≡ true
unfolding read_local_host_keys fields strip is_space holds read_peers mem lookup ◌==◌ local_entries
ensure_local-is_live_example =
    ensure_local-is_live own (codes "p" ∷ []) empty (codes "p") (codes "t b") refl local-IsFormed
      (λ address k h. cc) refl
