-- ===== src/MockConnection/Handlers/Stays.antt =====
-- connection/mock_connection.py: code that leaves the system blocks in the table.
use brewblox_devcon_spark.Base.{
  ℕ, ◌≤◌, Bool, true, false, [], ◌∷◌, some, ◌==◌, if◌then◌else◌, ◌≡◌, refl, sym, ◌∙◌, subst, arith,
  inl, inr, Bool-cases,
}
use brewblox_devcon_spark.Base.Exn.{Result, ok, err}
use brewblox_devcon_spark.Base.Table.{Table, find, put, remove, find-put}
use brewblox_devcon_spark.Base.Json.{Fields}
use brewblox_devcon_spark.Models.Config.{user_nid_start}
use brewblox_devcon_spark.MockConnection.{
  MockConnection, Block, Step, Reply, ◌then◌, put_block, update_block,
}

-- A block stands in the table under the number.
abbrev pub IsThere : ℕ → Table Block → Type 0
IsThere nid t = (b : Block) × (find nid t ≡ some b)

-- SysInfo, WiFiSettings, DisplaySettings and SparkPins are there.
abbrev pub HasSystem : MockConnection → Type 0
HasSystem c = IsThere 2 c.blocks × IsThere 5 c.blocks × IsThere 7 c.blocks × IsThere 19 c.blocks

put-IsThere : (nid k : ℕ) (b : Block) (t : Table Block) → IsThere nid t → IsThere nid (put k b t)
put-IsThere nid k b t (here, is) = elim (Bool-cases (k == nid)) [
  | inl e ↦ (b, rw (find-put k nid b t, e) refl)
  | inr e ↦ (here, rw (find-put k nid b t, e) is)
]

find-remove :
    (nid k : ℕ) (t : Table Block) → (k == nid) ≡ false → find nid (remove k t) ≡ find nid t
unfolding find remove
find-remove nid k [] ne = refl
find-remove nid k ((j, b) ∷ t) ne = ground (arith, find-remove nid k t)

-- The code leaves the system blocks in the table, also where it raises.
unfoldable pub Stays : {A : Type 0} → Step A → Type 0
Stays f = (c : MockConnection) → HasSystem c → HasSystem (f c).1

pub pure-Stays : {A : Type 0} (r : Result A) → Stays (λ c. (r, c))
unfolding Stays
pure-Stays r c h = h

pub put_block-Stays :
    {A : Type 0} (r : Result A) (k : ℕ) (b : Block) → Stays (λ c. (r, put_block k b c))
unfolding Stays put_block
put_block-Stays r k b c (a, w, d, p) = (
  put-IsThere 2 k b c.blocks a,
  put-IsThere 5 k b c.blocks w,
  put-IsThere 7 k b c.blocks d,
  put-IsThere 19 k b c.blocks p,
)

-- Code that reads the connection first.
pub at-Stays :
    {A : Type 0} (f : MockConnection → Step A)
    → ((c : MockConnection) → Stays (f c))
    → Stays (λ c. f c c)
unfolding Stays
at-Stays f each c h = each c c h

-- Code that sets something other than the blocks first.
pub after-Stays :
    {A : Type 0} (f : Step A) (g : MockConnection → MockConnection)
    → ((c : MockConnection) → (g c).blocks ≡ c.blocks)
    → Stays f
    → Stays (λ c. f (g c))
unfolding Stays
after-Stays f g same stays c h =
    stays (g c)
      (subst (λ t. IsThere 2 t × IsThere 5 t × IsThere 7 t × IsThere 19 t) (sym (same c)) h)

bind-Stays :
    {A B : Type 0} (r : Result A) (g : A → Step B) (d : MockConnection)
    → ((a : A) → Stays (g a))
    → HasSystem d
    → HasSystem (elim r as (λ x. Result B × MockConnection) [ err e ↦ (err e, d) | ok a ↦ g a d ]).1
unfolding Stays
bind-Stays (err e) g d later h = h
bind-Stays (ok a) g d later h = later a d h

pub then-Stays :
    {A B : Type 0} (f : Step A) (g : A → Step B)
    → Stays f
    → ((a : A) → Stays (g a))
    → Stays (f then g)
unfolding Stays
then-Stays f g first later c h = bind-Stays (f c).0 g (f c).1 later (first c h)

pub if-Stays :
    {A : Type 0} (b : Bool) (f g : Step A) → Stays f → Stays g → Stays (if b then f else g)
if-Stays true f g l r = l
if-Stays false f g l r = r

pub update_block-Stays :
    (f : Fields → Fields) (r : Result Block) (nid : ℕ) → Stays (update_block f r nid)
unfolding update_block
update_block-Stays f (err e) nid = pure-Stays (err e)
update_block-Stays f (ok b) nid = put_block-Stays (ok tt) nid (record b { content = f b.content })

pub update_block-ok :
    (f : Fields → Fields) (r : Result Block) (b : Block) (nid : ℕ) (c : MockConnection)
    → r ≡ ok b
    → (update_block f r nid c).0 ≡ ok tt
unfolding update_block
update_block-ok f (err e) b nid c is = cc
update_block-ok f (ok a) b nid c is = refl

pub removed-Stays :
    (nid : ℕ) (r : Result Reply)
    → user_nid_start ≤ nid
    → Stays (λ c. (r, record c { blocks = remove nid c.blocks }))
unfolding Stays
removed-Stays nid r user c ((a, e2), (w, e5), (d, e7), (p, e19)) = (
  (a, find-remove 2 nid c.blocks (ground arith) ∙ e2),
  (w, find-remove 5 nid c.blocks (ground arith) ∙ e5),
  (d, find-remove 7 nid c.blocks (ground arith) ∙ e7),
  (p, find-remove 19 nid c.blocks (ground arith) ∙ e19),
)
