-- ===== src/Tests/Resent.antt =====
-- The settings form that is sent as it was shown (internal/api/pages.go).
use ditto.Prelude.{
  ◌≡◌, refl, List, [], ◌∷◌, none, Bool, true, false, String, pos, if◌then◌else◌, ◌==◌, string_key,
  ap, ◌∙◌,
}
use Prim.Native.Char.{Char}
use Prim.Native.String as Str
use Prim.Native.String.append.{nil, cons}
use ditto.Settings.Patch.{ConfigHandler}
use ditto.Settings.Form.{save}
use ditto.Pages.Fragment.{settings_page}
use ditto.Pages.Resent.{with_return, returned, form_of, are_lines, save-settings_page}
use ditto.Tests.Codec.{codec, one_char, mark_all, unmark, unmark-mark_all}
use ditto.Tests.Settings.{base, no_settings}

-- Lists of texts as one text, which is taken apart as strings.Split does: the empty text is one line.
abbrev split_marked : String → List String
split_marked Str.[] = "" ∷ []
split_marked (Str.◌∷◌ c s) = unmark (Str.◌∷◌ c s)

abbrev no_break : String → Bool
no_break s = false

-- A character before a text from which the carriage returns at its end are cut.
abbrev before_cut : Char → String → String
before_cut c Str.[] = if one_char c == "\r" then "" else one_char c
before_cut c (Str.◌∷◌ d s) = Str.◌∷◌ c (Str.◌∷◌ d s)

-- Cuts the carriage returns at the end of a text.
abbrev trim : String → String
trim Str.[] = ""
trim (Str.◌∷◌ c s) = before_cut c (trim s)

trim-with_return : (p : String) → trim (with_return p) ≡ trim p
trim-with_return Str.[] = ap trim (λ i. nil "\r" i)
trim-with_return (Str.◌∷◌ c p) =
    ap trim (λ i. cons c p "\r" i) ∙ ap (before_cut c) (trim-with_return p)

-- The marked texts with a carriage return at the end of each but the last.
abbrev posted : String → String
posted t = mark_all (returned (split_marked t))

split_marked-mark_all : (p : String) (qs : List String) → split_marked (mark_all (p ∷ qs)) ≡ p ∷ qs
split_marked-mark_all Str.[] qs = unmark-mark_all ("" ∷ qs)
split_marked-mark_all (Str.◌∷◌ c p) qs = unmark-mark_all (Str.◌∷◌ c p ∷ qs)

split_marked-returned :
    (p : String) (qs : List String)
    → split_marked (mark_all (returned (p ∷ qs))) ≡ returned (p ∷ qs)
split_marked-returned p [] = split_marked-mark_all p []
split_marked-returned p (q ∷ qs) = split_marked-mark_all (with_return p) (returned (q ∷ qs))

split_marked-posted :
    (p : String) (qs : List String)
    → are_lines codec split_marked trim mark_all posted no_break (p ∷ qs) ≡ true
    → split_marked (posted (mark_all (p ∷ qs))) ≡ returned (p ∷ qs)
split_marked-posted p qs h =
    ap (λ ls. split_marked (mark_all (returned ls))) (split_marked-mark_all p qs)
    ∙ split_marked-returned p qs

abbrev set_up : ConfigHandler
set_up = record {
  cfg = record base {
    scan_paths = "/photos" ∷ "/music" ∷ [];
    scan_paused = true;
    scan_workers = record {
      walkers = pos 4;
      cache_checkers = pos 4;
      partial_hashers = pos 4;
      full_hashers = pos 2;
    };
  };
  table = no_settings;
  manager = none;
}

save-settings_page_example :
    (save codec split_marked trim set_up
      (form_of codec posted (settings_page mark_all set_up.cfg))).0.cfg
    ≡ set_up.cfg
save-settings_page_example =
    save-settings_page codec split_marked trim mark_all posted no_break set_up refl refl
      trim-with_return split_marked-posted refl refl refl refl refl refl refl
