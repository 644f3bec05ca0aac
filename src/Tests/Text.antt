-- ===== src/Tests/Text.antt =====
-- src/string_tools.cpp and src/logging.cpp on concrete texts.
use ipvshttpd.Libc.{skip_spaces, atoi, strtol}
use ipvshttpd.Logging.Sinks.{when, error_only_std}
use ipvshttpd.Logging.{log_level_error, log_sink_std, has_sink, cerr, log_error}
use ipvshttpd.Prelude.Bytes.{Bytes, codes}
use ipvshttpd.Prelude.Int.{pos, negsuc}
use ipvshttpd.Prelude.{
  ◌≤◌, ◌&&◌, List, [], ◌∷◌, ◌++◌, none, some, ◌≡◌, refl, inl, inr, arith, All, length, leb,
}
use ipvshttpd.StringTools.Split.Join.{join-split}
use ipvshttpd.StringTools.Split.Limit.{length-split, empty_delimiter_loops}
use ipvshttpd.StringTools.Split.Fields.{fields, str_split-fields}
use ipvshttpd.StringTools.Split.{join, split_total}
use ipvshttpd.StringTools.Trim.{IsSpace, StartsClean, EndsClean, trim_cuts}
use ipvshttpd.StringTools.{str_trim, str_ltrim, str_rtrim, str_split, split_loop}
use ipvshttpd.Tests.{demo_logger}

abbrev sinks_text : Bytes
sinks_text = codes "stdout,syslog,none"

abbrev three : List Bytes
three = codes "stdout" ∷ (codes "syslog" ∷ (codes "none" ∷ []))

abbrev two : List Bytes
two = codes "stdout" ∷ (codes "syslog,none" ∷ [])

split_all : str_split sinks_text (codes ",") (negsuc 0) ≡ some three
unfolding str_split split_loop
split_all = refl

split_at_two : str_split sinks_text (codes ",") (pos 2) ≡ some two
unfolding str_split split_loop
split_at_two = refl

trim_run : str_trim (codes " a b\t") ≡ codes "a b"
unfolding str_trim str_ltrim str_rtrim skip_spaces
trim_run = refl

atoi_run : atoi (codes "-42 kernels") ≡ negsuc 41
unfolding atoi strtol
atoi_run = refl

split_total_example : (r : List Bytes) × (str_split sinks_text (codes ",") (negsuc 0) ≡ some r)
split_total_example = split_total sinks_text (codes ",") (negsuc 0) (inl (λ e. cc))

join-split_example :
    (r : List Bytes) × (str_split sinks_text (codes ",") (pos 2) ≡ some r)
    × (join (codes ",") r ≡ sinks_text)
join-split_example = join-split sinks_text (codes ",") (pos 2) (λ e. cc) (inr (omega arith))

-- An empty delimiter with a limit: one part for each round, and the text that is left.
split_empty : str_split (codes "a") [] (pos 5) ≡ some ([] ∷ ([] ∷ ([] ∷ ([] ∷ (codes "a" ∷ [])))))
unfolding str_split split_loop
split_empty = refl

length-split_example :
    (r : List Bytes) × (str_split (codes "a") [] (pos 5) ≡ some r) × (length r ≤ 5)
length-split_example = length-split (codes "a") [] 5 (omega arith)

never_ends : split_loop 1000 [] (negsuc 0) 1 sinks_text [] ≡ none
never_ends = empty_delimiter_loops 1000 0 1 sinks_text []

trim_cuts_example :
    (l : Bytes) × (r : Bytes) × (codes " a b\t" ≡ l ++ str_trim (codes " a b\t") ++ r)
    × All IsSpace l
    × All IsSpace r
    × StartsClean (str_trim (codes " a b\t"))
    × EndsClean (str_trim (codes " a b\t"))
trim_cuts_example = trim_cuts (codes " a b\t")

error_only_std_example : log_error (codes "no") demo_logger ≡ record demo_logger {
  lines =
      demo_logger.lines
      ++ when
          (leb log_level_error demo_logger.level && has_sink demo_logger.sinks log_sink_std)
          (cerr (codes "no") ∷ []);
}
error_only_std_example = error_only_std (codes "no") demo_logger

str_split-fields_example :
    str_split sinks_text (codes ",") (negsuc 0) ≡ some (fields b',' sinks_text)
str_split-fields_example = str_split-fields sinks_text b',' 0
