-- ===== src/Command/Slots.antt =====
-- The table of active messages: it holds the requests in progress, under different numbers.
use brewblox_devcon_spark.Base.{
  ℕ, ◌+◌, ◌%◌, ◌≤◌, ◌<◌, ◌≡◌, refl, ap, subst, ◌∙◌, sym, false, List, [], ◌∷◌, ◌++◌, map, some,
  Text, All, All-both, All-at, All-without, All-weaken, arith, ◌==◌, if◌then◌else◌,
}
use brewblox_devcon_spark.Base.Exn.{Exn, Result, ok, err}
use brewblox_devcon_spark.Base.Table.{
  Table, IsFree, find, put, remove, is_empty, find-put, put-free, remove-append, find-append,
  find-free,
}
use brewblox_devcon_spark.Models.Messages.{IntermediateResponse}
use brewblox_devcon_spark.Command.{
  Codec, CboxCommander, Future, pending, done, Request, Outcome, next_id, activate,
  activate_encoded, begin, on_response, decoded, awaited, set_result, conclude, release, finish,
}
use brewblox_devcon_spark.Command.Exchange.{
  System, HasRoom, Step, start, refuse, receive, complete, Reach, begun, later,
}

-- The table that the requests in progress make.
abbrev pub entries : List Request → Table ℕ
entries = map (λ r. (r.msg_id, r.fut))

abbrev pub InWindow : ℕ → Request → Type 0
InWindow calls r = (r.msg_id ≡ r.fut % 65535) × (r.fut ≤ calls) × (calls < r.fut + 65535)

abbrev pub IsOrdered : List Request → Type 0
IsOrdered [] = Unit
IsOrdered (r ∷ rs) = All (λ q. r.fut < q.fut) rs × IsOrdered rs

pub record IsTidy (s : System) : Type 0 where
  pub number : s.commander.msgid ≡ s.commander.calls % 65535
  pub table : s.commander.active_messages ≡ entries s.running
  pub empty : s.commander.empty_ev ≡ is_empty s.commander.active_messages
  pub window : All (InWindow s.commander.calls) s.running
  pub ordered : IsOrdered s.running

mod_ne : (a b : ℕ) → a < b → b < a + 65535 → (a % 65535 == b % 65535) ≡ false
mod_ne a b h k = ground arith

-- The next number is free.
next-IsFree :
    (calls : ℕ) (rs : List Request)
    → All (InWindow calls) rs
    → All (λ r. calls + 1 < r.fut + 65535) rs
    → IsFree ((calls + 1) % 65535) (entries rs)
next-IsFree calls [] w room = tt
next-IsFree calls (r ∷ rs) w room = (
  rw (w.0.0) (mod_ne r.fut (calls + 1) (omega (arith, w.0.1)) room.0),
  next-IsFree calls rs w.1 room.1,
)

IsOrdered-append :
    (rs : List Request) (r : Request)
    → IsOrdered rs
    → All (λ q. q.fut < r.fut) rs
    → IsOrdered (rs ++ r ∷ [])
IsOrdered-append [] r o h = (tt, tt)
IsOrdered-append (q ∷ rs) r o h =
    (All-both (λ p. q.fut < p.fut) rs (r ∷ []) o.0 (h.0, tt), IsOrdered-append rs r o.1 h.1)

IsOrdered-without :
    (front back : List Request) (r : Request)
    → IsOrdered (front ++ r ∷ back)
    → IsOrdered (front ++ back)
IsOrdered-without [] back r o = o.1
IsOrdered-without (q ∷ front) back r o =
    (All-without (λ p. q.fut < p.fut) front back r o.0, IsOrdered-without front back r o.1)

-- The requests before one have other numbers.
front-IsFree :
    (calls : ℕ) (front back : List Request) (r : Request)
    → All (InWindow calls) (front ++ r ∷ back)
    → IsOrdered (front ++ r ∷ back)
    → IsFree r.msg_id (entries front)
front-IsFree calls [] back r w o = tt
front-IsFree calls (q ∷ front) back r w o =
    let at : InWindow calls r = All-at (InWindow calls) front back r w.1 in
    let before : q.fut < r.fut = All-at (λ p. q.fut < p.fut) front back r o.0 in
    (
      rw (w.0.0, at.0) (mod_ne q.fut r.fut before (omega (arith, at.1, w.0.2))),
      front-IsFree calls front back r w.1 o.1,
    )

-- A step that only settles futures keeps the table.
IsTidy-futures :
    (s : System) (futures : Table Future)
    → IsTidy s
    → IsTidy (record { commander = record s.commander { futures = futures }; running = s.running })
IsTidy-futures s futures t = record {
  number = t.number;
  table = t.table;
  empty = t.empty;
  window = t.window;
  ordered = t.ordered;
}

window_next :
    (calls : ℕ) (rs : List Request)
    → All (InWindow calls) rs
    → All (λ r. calls + 1 < r.fut + 65535) rs
    → All (InWindow (calls + 1)) rs
window_next calls [] w room = tt
window_next calls (r ∷ rs) w room =
    ((w.0.0, omega (arith, w.0.1), room.0), window_next calls rs w.1 room.1)

-- One more number that is not used.
next_id-IsTidy :
    (s : System)
    → HasRoom s
    → IsTidy s
    → IsTidy (record { commander = next_id s.commander; running = s.running })
unfolding next_id
next_id-IsTidy s room t = record {
  number = grind (arith, t.number);
  table = t.table;
  empty = t.empty;
  window = window_next s.commander.calls s.running t.window room;
  ordered = t.ordered;
}

entries-append :
    (front back : List Request) → entries (front ++ back) ≡ entries front ++ entries back
entries-append [] back = refl
entries-append (r ∷ front) back = rw (entries-append front back)

is_empty-append : (t u : Table ℕ) (k v : ℕ) → is_empty (t ++ (k, v) ∷ u) ≡ false
unfolding is_empty
is_empty-append [] u k v = refl
is_empty-append (e ∷ t) u k v = refl

activate-IsTidy :
    (s : System) (msg : Text)
    → HasRoom s
    → IsTidy s
    → let (r, c) = activate msg (next_id s.commander) in
      IsTidy (record { commander = c; running = s.running ++ r ∷ [] })
unfolding next_id activate
activate-IsTidy s msg room t =
    let id = (s.commander.msgid + 1) % 65535 in
    let fut = s.commander.calls + 1 in
    let same : id ≡ fut % 65535 = grind (arith, t.number) in
    let free : IsFree id (entries s.running) =
      rw same (next-IsFree s.commander.calls s.running t.window room) in
    let row : put id fut s.commander.active_messages ≡ entries s.running ++ (id, fut) ∷ [] =
      rw t.table (put-free id fut (entries s.running) free) in
    record {
      number = same;
      table = row ∙ sym (entries-append s.running _);
      empty = rw row (sym (is_empty-append (entries s.running) [] id fut));
      window =
          All-both (InWindow fut) s.running _
            (window_next s.commander.calls s.running t.window room)
            ((same, omega arith, omega arith), tt);
      ordered =
          IsOrdered-append s.running _ t.ordered
            (All-weaken s.running (λ q w. omega (arith, w.1)) t.window);
    }

finish-IsTidy :
    (s : System) (front back : List Request) (r : Request) (o : Outcome)
    → s.running ≡ front ++ r ∷ back
    → IsTidy s
    → ((finish r o s.commander).0 ≡ conclude o)
      × IsTidy (record { commander = (finish r o s.commander).1; running = front ++ back })
unfolding finish release
finish-IsTidy s front back r o e t =
    let calls = s.commander.calls in
    let window : All (InWindow calls) (front ++ r ∷ back) = rw (← e) t.window in
    let ordered : IsOrdered (front ++ r ∷ back) = rw (← e) t.ordered in
    let free = front-IsFree calls front back r window ordered in
    let table : s.commander.active_messages ≡ entries front ++ (r.msg_id, r.fut) ∷ entries back =
      t.table ∙ ap entries e ∙ entries-append front (r ∷ back) in
    let found : find r.msg_id s.commander.active_messages ≡ some r.fut =
      rw table (find-append r.msg_id r.fut (entries front) (entries back) free) in
    let left : remove r.msg_id s.commander.active_messages ≡ entries (front ++ back) =
      rw (table, entries-append front back)
        (remove-append r.msg_id r.fut (entries front) (entries back) free) in
    let was : s.commander.empty_ev ≡ false =
      t.empty ∙ rw table (is_empty-append (entries front) (entries back) r.msg_id r.fut) in
    rw found (
      refl,
      record {
        number = t.number;
        table = left;
        empty = rw was (ground arith);
        window = All-without (InWindow calls) front back r window;
        ordered = IsOrdered-without front back r ordered;
      },
    )

begin-ok :
    (encoded : Result Text) (c : CboxCommander) (r : Request) (d : CboxCommander)
    → activate_encoded encoded c ≡ (ok r, d)
    → (msg : Text) × (encoded ≡ ok msg) × (activate msg c ≡ (r, d))
unfolding activate_encoded
begin-ok (err e) c r d h = cc
begin-ok (ok msg) c r d h = (msg, refl, cc)

begin-err :
    (encoded : Result Text) (c : CboxCommander) (e : Exn) (d : CboxCommander)
    → activate_encoded encoded c ≡ (err e, d)
    → c ≡ d
unfolding activate_encoded
begin-err (err x) c e d h = cc
begin-err (ok msg) c e d h = cc

Step-IsTidy : (codec : Codec) {s t : System} → Step codec s t → IsTidy s → IsTidy t
unfolding begin on_response
Step-IsTidy codec (start s opcode payload mode r c room e) t =
    let (msg, sent, made) = begin-ok _ (next_id s.commander) r c e in
    subst (λ x. IsTidy (record { commander = x.1; running = s.running ++ x.0 ∷ [] })) made
      (activate-IsTidy s msg room t)
Step-IsTidy codec (refuse s opcode payload mode x c room e) t =
    subst (λ d. IsTidy (record { commander = d; running = s.running }))
      (begin-err _ (next_id s.commander) x c e) (next_id-IsTidy s room t)
Step-IsTidy codec (receive s msg) t = IsTidy-futures s _ t
Step-IsTidy codec (complete s front back r o e) t = (finish-IsTidy s front back r o e t).1

Reach-IsTidy : (codec : Codec) {s : System} → Reach codec s → IsTidy s
unfolding is_empty
Reach-IsTidy codec begun = record {
  number = refl;
  table = refl;
  empty = refl;
  window = tt;
  ordered = tt;
}
Reach-IsTidy codec (later reach step) = Step-IsTidy codec step (Reach-IsTidy codec reach)

-- After any steps of the commander's requests and responses, if fewer than 65535 message numbers are
-- taken while a request waits: a request that ends raises or returns what its outcome says, never a
-- KeyError; its number alone is released; and the commander is empty exactly if no other request is
-- in progress.
pub finish-Reach :
    (codec : Codec) {s : System} (front back : List Request) (r : Request) (o : Outcome)
    → Reach codec s
    → s.running ≡ front ++ r ∷ back
    → let (result, c) = finish r o s.commander in
      (result ≡ conclude o)
      × (c.active_messages ≡ entries (front ++ back))
      × (c.empty_ev ≡ is_empty (entries (front ++ back)))
finish-Reach codec front back r o reach e =
    let (same, t) = finish-IsTidy _ front back r o e (Reach-IsTidy codec reach) in
    (same, t.table, t.empty ∙ ap is_empty t.table)

-- After such steps, a response is given to the request that waits under its number, and to no other.
pub on_response-Reach :
    (codec : Codec) {s : System} (front back : List Request) (r : Request) (msg : Text)
    (response : IntermediateResponse)
    → Reach codec s
    → s.running ≡ front ++ r ∷ back
    → codec.decode_response msg ≡ ok response
    → response.msg_id ≡ r.msg_id
    → find r.fut s.commander.futures ≡ some pending
    → (fut : ℕ)
    → find fut (on_response codec msg s.commander).futures
      ≡ (if r.fut == fut then some (done response) else find fut s.commander.futures)
unfolding on_response decoded awaited set_result
on_response-Reach codec {s} front back r msg response reach e d same p fut =
    let t = Reach-IsTidy codec reach in
    let calls = s.commander.calls in
    let free = front-IsFree calls front back r (rw (← e) t.window) (rw (← e) t.ordered) in
    let found : find response.msg_id s.commander.active_messages ≡ some r.fut =
      rw (same, t.table ∙ ap entries e ∙ entries-append front (r ∷ back))
        (find-append r.msg_id r.fut (entries front) (entries back) free) in
    rw (d, found, p) (find-put r.fut fut (done response) s.commander.futures)

-- A response under a number that no request in progress has changes nothing.
pub on_response-unexpected :
    (codec : Codec) {s : System} (msg : Text) (response : IntermediateResponse)
    → Reach codec s
    → codec.decode_response msg ≡ ok response
    → IsFree response.msg_id (entries s.running)
    → on_response codec msg s.commander ≡ s.commander
unfolding on_response decoded awaited
on_response-unexpected codec {s} msg response reach d free =
    let t = Reach-IsTidy codec reach in
    rw (d, t.table, find-free response.msg_id (entries s.running) free) refl
