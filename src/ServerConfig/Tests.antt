-- ===== src/ServerConfig/Tests.antt =====
-- A run of the configuration, and a witness of the theorem on it.
use container_service_extens.Common.{
  String, ◌≡◌, refl, Option, none, some, ◌==◌, if◌then◌else◌, ok, err,
}
use container_service_extens.Common.Int.{ℤ, pos}
use container_service_extens.Common.Text.{split}
use container_service_extens.ServerConfig.{
  Node, basic, seq, table, end, item, empty, field, value_error, nth, replace_nth, find, store,
  is_index, bracketed, parent_tokens, split_key, get_value_at, set_value_at,
}
use container_service_extens.ServerConfig.RoundTrip.{set_value_at-get_value_at}

-- Two of the texts that `int` reads.
abbrev int : String → Option ℤ
int s = if s == "0" then some (pos 0) else if s == "1" then some (pos 1) else none

abbrev vcs : Node → Node
vcs second = table (field "vcs" (seq (item (basic "vc1") (item second end))) empty)

written :
    set_value_at int (vcs (basic "vc2")) "vcs.[1]" (basic "vc3")
    ≡ ok (vcs (basic "vc3"), some (basic "vc2"))
unfolding set_value_at split_key split parent_tokens find is_index bracketed nth store replace_nth
written = refl

not_an_integer : get_value_at int (vcs (basic "vc2")) "vcs.[last]" ≡ err value_error
unfolding get_value_at split_key split parent_tokens find is_index bracketed
not_an_integer = refl

leading_dot :
    get_value_at int (vcs (basic "vc2")) ".vcs" ≡ get_value_at int (vcs (basic "vc2")) "vcs"
unfolding get_value_at split_key split parent_tokens
leading_dot = refl

set_value_at-get_value_at_example :
    get_value_at int (vcs (basic "vc3")) "vcs.[1]" ≡ ok (basic "vc3")
set_value_at-get_value_at_example =
    set_value_at-get_value_at int (vcs (basic "vc2")) "vcs.[1]" (basic "vc3")
      (vcs (basic "vc3"), some (basic "vc2")) written
