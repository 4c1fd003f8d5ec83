-- ===== src/Protocol/Files/Examples.antt =====
-- Runs of the theorems on file names.
use nebula_display.Prelude.{ℕ, ◌≡◌, refl, Bool, List, arith, list_eq, codes}
use nebula_display.Protocol.Files.{
  sanitize_filename, stem_and_extension, split_at_dot, whole_or, first_free, free_or,
  decimal_digits, snoc_trimmed, unique_destination, final_component, trim_front, trim_back,
  or_unnamed, numbered,
}
use nebula_display.Protocol.Files.Names.{
  IsSafeName, sanitize_filename-IsSafeName, sanitize_filename_safe,
}

sanitize_filename-IsSafeName_example : IsSafeName (sanitize_filename (codes "../../etc/passwd"))
sanitize_filename-IsSafeName_example = sanitize_filename-IsSafeName (codes "../../etc/passwd")

passwd : sanitize_filename (codes "../../etc/passwd") ≡ codes "passwd"
unfolding sanitize_filename final_component trim_front trim_back snoc_trimmed or_unnamed
passwd = refl

short_name-IsSafeName : IsSafeName (codes "a.b")
short_name-IsSafeName = ground arith

sanitize_filename_safe_example : sanitize_filename (codes "a.b") ≡ codes "a.b"
sanitize_filename_safe_example = sanitize_filename_safe (codes "a.b") short_name-IsSafeName

abbrev one_file : List ℕ → Bool
one_file name = list_eq name (codes "a.txt")

second_name : unique_destination one_file (codes "a.txt") 7 ≡ codes "a (1).txt"
unfolding unique_destination stem_and_extension split_at_dot whole_or first_free free_or numbered
    decimal_digits list_eq
second_name = refl
