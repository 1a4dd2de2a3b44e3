-- ===== src/Strings/Witnesses.antt =====
-- Runs of the functions of src/utils/strings.hpp.
use lingdong.Prelude.{◌≡◌, refl, codes}
use lingdong.Strings.{view_strip_empty, last_kept, find_suffix_type, suffix_from}

strip_test : view_strip_empty (codes " \t a b  ") ≡ codes "a b"
unfolding view_strip_empty last_kept
strip_test = refl

suffix_test : find_suffix_type (codes "a.tar.gz") ≡ codes "gz"
unfolding find_suffix_type suffix_from
suffix_test = refl
