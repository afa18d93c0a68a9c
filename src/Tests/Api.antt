-- ===== src/Tests/Api.antt =====
-- The API on an association list, with a commander that answers every request with no block.
use brewblox_devcon_spark.Base.{
  arith, eq_iff, eq_refl, ◌∙◌, ℕ, ◌+◌, ◌≡◌, refl, String, true, false, ◌==◌, [], ◌∷◌, Option, none,
  some, if◌then◌else◌,
}
use brewblox_devcon_spark.Base.Exn.{ok, err, update_in_progress}
use brewblox_devcon_spark.Base.Dict.{Dict, lookup, insert, erase, lookup-insert}
use brewblox_devcon_spark.Base.Json.{number, object, Fields, end, field, get}
use brewblox_devcon_spark.StateMachine.{init as state_init}
use brewblox_devcon_spark.SparkApi.{Bidict, Env, Api, Block}
use brewblox_devcon_spark.Models.Messages.{FirmwareBlock}
use brewblox_devcon_spark.SparkApi.Links.{merge, resolve_fields}
use brewblox_devcon_spark.SparkApi.Blocks.{
  to_block, to_block_identity, sync_block_id, synced, identity_in, id_or_sid, serialized, or_end,
}
use brewblox_devcon_spark.SparkApi.Calls.{rename_block}
use brewblox_devcon_spark.SparkApi.Rename.{rename_block_any_state}
use brewblox_devcon_spark.SparkApi.Names.{KeepsPut, to_block-known}
use brewblox_devcon_spark.SparkApi.Merge.{see, overlay, see-merge}
use brewblox_devcon_spark.SparkApi.Guard.{create_block, refusal, perform, perform-refused}
use brewblox_devcon_spark.Tests.Status.{config, fw}

inverse : Dict ℕ → ℕ → Option String
inverse [] nid = none
inverse ((id, n) ∷ d) nid = if n == nid then some id else inverse d nid

without_value : ℕ → Dict ℕ → Dict ℕ
without_value nid [] = []
without_value nid ((id, n) ∷ d) =
    let rest = without_value nid d in if n == nid then rest else (id, n) ∷ rest

abbrev names : Bidict (Dict ℕ)
names = record {
  get = λ d id. lookup id d;
  inverse = inverse;
  put = λ id nid d. insert id nid (without_value nid d);
  delete = erase;
  clear = λ d. [];
}

abbrev env : Env (Dict ℕ) ℕ
env = record {
  block_store = names;
  cmder = λ method sent. (ok [], sent + 1);
  validate = λ given sent. (ok given, sent);
  sequence_parse = ok;
  sequence_serialize = ok;
  service_id = "spark-one";
}

abbrev updating : Api (Dict ℕ) ℕ
updating = record {
  store = [];
  world = 0;
  state = record (state_init config fw) { updating_ev = true };
  checks = 0;
}

abbrev block : Block
block = record {
  id = some "pin";
  nid = none;
  type = some "DigitalActuator";
  service = none;
  content = some end;
}

perform-refused_example :
    perform env false (create_block block) updating ≡ (err update_in_progress, updating)
perform-refused_example =
    perform-refused env false (create_block block) updating update_in_progress
      (unfold refusal in refl)

abbrev old : Fields
old = field "pid" (object (field "kp" (number 1) (field "ti" (number 2) end))) end

abbrev new : Fields
new = field "pid" (object (field "kp" (number 5) end)) (field "enabled" (number 1) end)

-- The value that only the first dict has, below a dict that both have.
see-merge_example :
    see ("pid" ∷ "ti" ∷ []) (some (object (merge old new)))
    ≡ overlay ("pid" ∷ "ti" ∷ []) (some (object old)) (some (object new))
see-merge_example =
    see-merge ("pid" ∷ "ti" ∷ []) old new (unfold get in (refl, (refl, tt, tt), (refl, tt, tt)))

inverse-put :
    (k : String) (v : ℕ) (d : Dict ℕ) → inverse (insert k v (without_value v d)) v ≡ some k
unfolding inverse insert without_value
inverse-put k v [] = ground arith
inverse-put k v ((id, n) ∷ d) = ground (arith, eq_iff id k, inverse-put k v d)

keeps : KeepsPut names
keeps = record {
  get-put = λ k v d. lookup-insert k k v (without_value v d) ∙ rw (eq_refl k) refl;
  inverse-put = inverse-put;
}

abbrev read : FirmwareBlock
read = record { id = some "pin"; nid = 100; type = some "DigitalActuator"; content = some end }

abbrev shown : Block
shown = record {
  id = some "pin";
  nid = some 100;
  type = some "DigitalActuator";
  service = some "spark-one";
  content = some end;
}

abbrev known : Api (Dict ℕ) ℕ
known = record { store = ("pin", 100) ∷ []; world = 0; state = state_init config fw; checks = 0 }

to_block-known_example :
    (shown.id ≡ some "pin")
    × (shown.nid ≡ some read.nid)
    × (names.get known.store "pin" ≡ some 100)
    × (names.inverse known.store 100 ≡ some "pin")
unfolding to_block to_block_identity sync_block_id synced identity_in id_or_sid serialized or_end
    resolve_fields insert without_value
to_block-known_example =
    to_block-known env read "pin" (record known { store = [] }) known shown keeps refl refl refl
      refl

rename_block_any_state_example :
    let (r, t) = rename_block env false "pin" "valve" known in
    rename_block env false "pin" "valve" (record known { state = updating.state })
    ≡ (r, record t { state = updating.state })
rename_block_any_state_example = rename_block_any_state env false "pin" "valve" known updating.state
