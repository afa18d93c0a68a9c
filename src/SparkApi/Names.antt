-- ===== src/SparkApi/Names.antt =====
-- The table of block names behind the conversions and calls.
use brewblox_devcon_spark.Base.{ℕ, ◌≡◌, refl, ap, sym, ◌∙◌, String, false, ◌==◌, some, str_eq}
use brewblox_devcon_spark.Base.Exn.{Result, ok, err}
use brewblox_devcon_spark.Base.Json.{Fields}
use brewblox_devcon_spark.Models.Messages.{FirmwareBlock}
use brewblox_devcon_spark.SparkApi.{Bidict, Env, Api, Block}
use brewblox_devcon_spark.SparkApi.Links.{resolve_fields}
use brewblox_devcon_spark.SparkApi.Actions.{◌>>=◌, continue, done, lift}
use brewblox_devcon_spark.SparkApi.Blocks.{
  to_block, to_block_identity, sync_block_id, find_sid, synced, id_or_sid, identity_in, serialized,
  or_end,
}

-- What bidict promises of an entry that is put: both directions find it.
pub record KeepsPut {S : Type 0} (d : Bidict S) : Type 0 where
  pub get-put : (k : String) (v : ℕ) (s : S) → d.get (d.put k v s) k ≡ some v
  pub inverse-put : (k : String) (v : ℕ) (s : S) → d.inverse (d.put k v s) v ≡ some k

-- The end of a conversion keeps the identity, and the state behind the synchronization.
record Built {S W : Type 0} (ident : Block) (s : Api S W) (r : Block) (t : Api S W) : Type 0 where
  id : r.id ≡ ident.id
  nid : r.nid ≡ ident.nid
  state : t ≡ s

filled :
    {S W : Type 0} (c : Result Fields) (ident : Block) (s : Api S W) (r : Block) (t : Api S W)
    → continue (λ content. done (record ident { content = some content })) (c, s) ≡ (ok r, t)
    → Built ident s r t
filled (err e) ident s r t h = cc
filled (ok content) ident s r t h =
    let same : record ident { content = some content } ≡ r = cc in
    record { id = sym (ap (λ x. x.id) same); nid = sym (ap (λ x. x.nid) same); state = cc }

resolved :
    {S W : Type 0} (c : Result Fields) (to : Fields → Result Fields) (ident : Block) (s : Api S W)
    (r : Block) (t : Api S W)
    → continue
        (λ fs. lift (to fs) >>= (λ content. done (record ident { content = some content })))
        (c, s)
      ≡ (ok r, t)
    → Built ident s r t
resolved (err e) to ident s r t h = cc
resolved (ok fs) to ident s r t h = filled (to fs) ident s r t h

module _ {S W : Type 0} (env : Env S W) where
  synced-put :
      (b : FirmwareBlock) (id : String) (store : S)
      → b.id ≡ some id
      → str_eq id "" ≡ false
      → (b.nid == 0) ≡ false
      → synced env b.id b.nid store ≡ env.block_store.put id b.nid store
  unfolding synced
  synced-put b id store h e n = rw (h, e, n) refl

  id_or_sid-named :
      (b : FirmwareBlock) (id : String) (store : S)
      → b.id ≡ some id
      → str_eq id "" ≡ false
      → id_or_sid env b.id store b.nid ≡ some id
  unfolding id_or_sid
  id_or_sid-named b id store h e = rw (h, e) refl

  -- With a bidict that keeps what is put, a block of the controller that has a name and a number, and
  -- converts without an error, is given its own name and number, which the table then holds in both
  -- directions.
  pub to_block-known :
      (b : FirmwareBlock) (id : String) (s t : Api S W) (r : Block)
      → KeepsPut env.block_store
      → b.id ≡ some id
      → str_eq id "" ≡ false
      → (b.nid == 0) ≡ false
      → to_block env b s ≡ (ok r, t)
      → (r.id ≡ some id)
        × (r.nid ≡ some b.nid)
        × (env.block_store.get t.store id ≡ some b.nid)
        × (env.block_store.inverse t.store b.nid ≡ some id)
  unfolding to_block to_block_identity sync_block_id identity_in
  to_block-known b id s t r keeps h e n k =
      let first : S = synced env b.id b.nid s.store in
      let both : S = synced env b.id b.nid first in
      let end : Api S W = record s { store = both } in
      let built : Built (identity_in env b both) end r t =
        resolved (resolve_fields (find_sid env both) (or_end env b.content))
          (serialized env (identity_in env b both)) (identity_in env b both) end r t k in
      let stored : t.store ≡ env.block_store.put id b.nid first =
        ap (λ x. x.store) built.state ∙ synced-put b id first h e n in
      (
        built.id ∙ id_or_sid-named b id both h e,
        built.nid,
        rw stored (keeps.get-put id b.nid first),
        rw stored (keeps.inverse-put id b.nid first),
      )
