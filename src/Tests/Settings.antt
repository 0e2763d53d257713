-- ===== src/Tests/Settings.antt =====
-- Block settings: bodies that are taken, read back and refused.
use gr4_control_plane.Prelude.{
  ℕ, suc, ◌+◌, ◌<◌, ◌≡◌, refl, ap, subst, string_eq, nat_eq, false, none, [], ◌∷◌, arith, String,
}
use gr4_control_plane.Prelude.Int.{negsuc}
use gr4_control_plane.Prelude.Dict
use gr4_control_plane.Prelude.Dict.{Dict}
use gr4_control_plane.Errors.{validation_error, ok, err, std_exception}
use gr4_control_plane.Pmt.{map}
use gr4_control_plane.Domain.Session.{Session}
use gr4_control_plane.Storage
use gr4_control_plane.Runtime.Manager.{RuntimeManager, BlockSettingsMode}
use gr4_control_plane.App.BlockSettings.{World, update}
use gr4_control_plane.Json.{
  Json, number, string, object, array, Members, no_members, member, no_elements,
}
use gr4_control_plane.App.BlockSettings.Conversion.{
  Nesting, Below, to_int64, json_to_property_map, property_map_to_json,
}
use gr4_control_plane.App.BlockSettings.Acceptance.{
  Accepts, is_supported, json_to_property_map-Accepts,
}
use gr4_control_plane.App.BlockSettings.Answers.{is_served, update-refused}
use gr4_control_plane.App.BlockSettings.RoundTrip.{
  IsPlain, Kept, property_map_to_json-json_to_property_map,
}
use gr4_control_plane.Tests.Fixtures.{running_a}
use gr4_control_plane.Tests.Values.{
  Node, leaf, whole, nothing, real, truth, fields, items, Entries, no_entries, entry, shape,
  to_dict, of_dict, reader, writer,
}

unfoldable mutual
  depth : Node → ℕ
  depth (fields es) = suc (entries_depth es)
  depth _ = 0

  entries_depth : Entries → ℕ
  entries_depth no_entries = 0
  entries_depth (entry _ v es) = depth v + entries_depth es

entries-Below : (n : ℕ) (es : Entries) → entries_depth es < n → Below depth n (to_dict es)
unfolding depth
entries-Below n no_entries h = tt
entries-Below n (entry k v es) h = (omega arith, entries-Below n es (omega arith))

depth-Below : (v : Node) (m : Dict String Node) → shape v ≡ map m → Below depth (depth v) m
unfolding depth
depth-Below (fields es) m h =
    let same_map : to_dict es ≡ m = cc in
    subst (λ d. Below depth (suc (entries_depth es)) d) same_map
      (entries-Below (suc (entries_depth es)) es (omega arith))
depth-Below (leaf _) m h = cc
depth-Below (whole _) m h = cc
depth-Below nothing m h = cc
depth-Below real m h = cc
depth-Below (truth _) m h = cc
depth-Below (items _) m h = cc

pub nesting : Nesting reader
nesting = record { depth = depth; below = depth-Below }

to_dict-of_dict : (d : Dict String Node) → to_dict (of_dict d) ≡ d
to_dict-of_dict [] = refl
to_dict-of_dict ((k, v) ∷ d) = ap (λ e. (k, v) ∷ e) (to_dict-of_dict d)

writer-Kept : Kept writer
writer-Kept = record {
  of_null-visit = refl;
  of_boolean-visit = λ b. refl;
  of_integer-visit = λ n. refl;
  of_floating-visit = λ d. refl;
  of_text-visit = λ s. refl;
  of_map-visit = λ m. ap map (to_dict-of_dict m);
}

-- A number and a nested object.
abbrev settings : Members (Unit {0})
settings =
    member "gain" (number (negsuc 4))
      (member "window" (object (member "kind" (string "hann") no_members)) no_members)

settings-IsPlain : IsPlain (object settings)
unfolding IsPlain to_int64 string_eq
settings-IsPlain = (refl, refl, (refl, (refl, tt, tt), tt))

property_map_to_json-json_to_property_map_example :
    (m : Dict String Node) × (json_to_property_map writer (object settings) ≡ ok m)
    × (property_map_to_json nesting m ≡ ok (object settings))
property_map_to_json-json_to_property_map_example =
    property_map_to_json-json_to_property_map writer writer-Kept nesting settings settings-IsPlain

abbrev with_array : Json (Unit {0})
with_array = object (member "gain" (array no_elements) no_members)

json_to_property_map-Accepts_example : Accepts false (json_to_property_map writer with_array)
unfolding is_supported
json_to_property_map-Accepts_example = json_to_property_map-Accepts writer with_array

-- It has one block, whose settings are its state.
abbrev pub one_block : RuntimeManager (Dict String Node)
one_block = record {
  State = Dict String Node;
  prepare = λ s n. (ok tt, n);
  start = λ s n. (ok tt, n);
  stop = λ s n. (ok tt, n);
  destroy = λ s n. (ok tt, n);
  active_stream_plan = λ s n. (ok none, n);
  fetch_http_stream = λ s id n. (err (std_exception "no stream"), n);
  resolve_websocket_stream = λ s id n. (err (std_exception "no stream"), n);
  set_block_settings = λ s b patch m n. (ok tt, patch);
  get_block_settings = λ s b n. (ok n, n);
}

abbrev world_of : Session → World one_block
world_of s = record { repository = (s.id, s) ∷ []; runtime = [] }

is_refused : is_served (Storage.get "a" (world_of running_a).repository) with_array ≡ false
unfolding Storage.get Dict.lookup string_eq is_supported
is_refused = refl

update-refused_example :
    (message : String) × (update one_block writer "a" "fir" with_array BlockSettingsMode.staged
        (world_of running_a)
      ≡ (err (validation_error message), world_of running_a))
unfolding Storage.get Dict.lookup string_eq
update-refused_example =
    update-refused one_block writer "a" "fir" with_array BlockSettingsMode.staged
      (world_of running_a) is_refused
