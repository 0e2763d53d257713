-- ===== src/Storage.antt =====
-- include/gr4cp/storage and src/storage/in_memory_session_repository.cpp. Each method holds the
-- repository's mutex for its whole body, so a method is one function on the map. `sessions_` has no
-- order of its own; `list` gives the order in which the model keeps the entries.
pub mod Laws
use gr4_control_plane.Prelude.{String, ◌<>◌, Bool, true, false, Option, none, some, List, string_eq}
use gr4_control_plane.Prelude.Dict
use gr4_control_plane.Prelude.Dict.{Dict}
use gr4_control_plane.Errors.{Result, ok, err, std_exception}
use gr4_control_plane.Domain.Session.{Session}

abbrev pub Repository : Type 0
Repository = Dict String Session

-- `emplace` leaves an entry that is there alone.
create_if_absent : Option Session → Session → Repository → Result (Unit {0}) × Repository
create_if_absent none s r = (ok tt, Dict.insert s.id s r)
create_if_absent (some _) s r = (err (std_exception ("session already exists: " <> s.id)), r)

unfoldable pub create : Session → Repository → Result (Unit {0}) × Repository
unfolding create_if_absent
create s r = create_if_absent (Dict.lookup s.id r) s r

unfoldable pub get : String → Repository → Option Session
get id r = Dict.lookup id r

unfoldable pub list : Repository → List Session
list r = Dict.values r

update_if_present : Option Session → Session → Repository → Result (Unit {0}) × Repository
update_if_present none s r = (err (std_exception ("unknown session: " <> s.id)), r)
update_if_present (some _) s r = (ok tt, Dict.insert s.id s r)

unfoldable pub update : Session → Repository → Result (Unit {0}) × Repository
unfolding update_if_present
update s r = update_if_present (Dict.lookup s.id r) s r

was_present : Option Session → Bool
was_present none = false
was_present (some _) = true

-- The number of erased entries is 0 or 1.
unfoldable pub remove : String → Repository → Bool × Repository
unfolding was_present
remove id r = (was_present (Dict.lookup id r), Dict.erase id r)
