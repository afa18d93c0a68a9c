-- ===== src/MockConnection/Handlers/Replies.antt =====
-- connection/mock_connection.py: replies without an error, and replies that change no block.
use brewblox_devcon_spark.Base.{
  Bool, true, false, List, if◌then◌else◌, ◌≡◌, refl, sym, ap, ◌∙◌, ◌⊎◌, inl, inr,
}
use brewblox_devcon_spark.Base.Exn.{Result, ok, err}
use brewblox_devcon_spark.Models.Messages.{EncodedPayload, ErrorCode}
use brewblox_devcon_spark.MockConnection.{MockConnection, Step, Reply, ◌then◌, done}

-- A reply has no error.
unfoldable pub Accepts : Step Reply → Type 0
Accepts f = (c : MockConnection) (r : Reply) → (f c).0 ≡ ok r → r.0 ≡ ErrorCode.ok

-- A reply with an error comes with the blocks as they were.
unfoldable pub Refuses : Step Reply → Type 0
Refuses f =
    (c : MockConnection) (r : Reply)
    → (f c).0 ≡ ok r
    → (r.0 ≡ ErrorCode.ok) ⊎ ((f c).1.blocks ≡ c.blocks)

pub Accepts-Refuses : (f : Step Reply) → Accepts f → Refuses f
unfolding Accepts Refuses
Accepts-Refuses f h c r is = inl (h c r is)

pub pure-Refuses : (r : Result Reply) → Refuses (λ c. (r, c))
unfolding Refuses
pure-Refuses r c q is = inr refl

pub pure-Accepts : (ps : List EncodedPayload) → Accepts (λ c. (ok (ErrorCode.ok, ps), c))
unfolding Accepts
pure-Accepts ps c r is = let same : (ErrorCode.ok, ps) ≡ r = cc in ap (λ q. q.0) (sym same)

pub at-Accepts :
    (f : MockConnection → MockConnection → Result Reply × MockConnection)
    → ((c : MockConnection) → Accepts (f c))
    → Accepts (λ c. f c c)
unfolding Accepts
at-Accepts f each c = each c c

pub at-Refuses :
    (f : MockConnection → Step Reply)
    → ((c : MockConnection) → Refuses (f c))
    → Refuses (λ c. f c c)
unfolding Refuses
at-Refuses f each c = each c c

bind-Accepts :
    {A : Type 0} (r : Result A) (g : A → Step Reply) (d : MockConnection) (q : Reply)
    → ((a : A) → Accepts (g a))
    → (elim r as (λ x. Result Reply × MockConnection) [ err e ↦ (err e, d) | ok a ↦ g a d ]).0
      ≡ ok q
    → q.0 ≡ ErrorCode.ok
unfolding Accepts
bind-Accepts (err e) g d q later is = cc
bind-Accepts (ok a) g d q later is = later a d q is

-- What comes last gives the reply.
pub then-Accepts :
    {A : Type 0} (f : Step A) (g : A → Step Reply) → ((a : A) → Accepts (g a)) → Accepts (f then g)
unfolding Accepts
then-Accepts f g later c r is = bind-Accepts (f c).0 g (f c).1 r later is

bind_reply-Accepts :
    (r : Result Reply) (g : Reply → Step Reply) (d : MockConnection) (q : Reply)
    → ((a : Reply) → r ≡ ok a → Accepts (g a))
    → (elim r as (λ x. Result Reply × MockConnection) [ err e ↦ (err e, d) | ok a ↦ g a d ]).0
      ≡ ok q
    → q.0 ≡ ErrorCode.ok
unfolding Accepts
bind_reply-Accepts (err e) g d q later is = cc
bind_reply-Accepts (ok a) g d q later is = later a refl d q is

-- A reply that is kept for later.
pub then_reply-Accepts :
    (f : Step Reply) (g : Reply → Step Reply)
    → Accepts f
    → ((a : Reply) → a.0 ≡ ErrorCode.ok → Accepts (g a))
    → Accepts (f then g)
unfolding Accepts
then_reply-Accepts f g fine later c r is =
    bind_reply-Accepts (f c).0 g (f c).1 r (λ a made. later a (fine c a made)) is

pub done-Accepts : (a : Reply) → a.0 ≡ ErrorCode.ok → Accepts (done a)
unfolding Accepts
done-Accepts a fine c r is = let same : a ≡ r = cc in ap (λ q. q.0) (sym same) ∙ fine

pub after-Accepts :
    (f : Step Reply) (g : MockConnection → MockConnection) → Accepts f → Accepts (λ c. f (g c))
unfolding Accepts
after-Accepts f g fine c = fine (g c)

pub if-Refuses :
    (b : Bool) (f g : Step Reply) → Refuses f → Refuses g → Refuses (if b then f else g)
if-Refuses true f g l r = l
if-Refuses false f g l r = r
