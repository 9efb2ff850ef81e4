-- ===== src/Pool/Invariant/Bulk.antt =====
-- The operations that drop many connections at once keep the books: ClearServer, Close, the reaper.

use fi_mcp_kit.Base.{
  ℕ, suc, ◌+◌, ◌≡◌, refl, inl, inr, String, false, not, none, List, [], ◌∷◌, arith, eq_iff, eq_refl,
  length, keep_if, count_if, if◌then◌else◌, if_cases, Bool-cases,
}
use fi_mcp_kit.Base.Dict.{Dict, Distinct, lookup, read, insert, read-insert}
use fi_mcp_kit.Base.Int.{dec_by}
use fi_mcp_kit.PoolState.{Pool, Conn, idle}
use fi_mcp_kit.Pool.{
  drop_all, clear_server, close_list, close_each, close, is_stale, sweep, reap_each, reap,
}
use fi_mcp_kit.Pool.Invariant.Parts.{Books, OfServer, erase-Books, shrink-Books}

-- The handles of some connections, put on a list of closed handles one by one.
unfoldable pub shut : List Conn → List ℕ → List ℕ
shut [] l = l
shut (c ∷ cs) l = shut cs (c.transport ∷ l)

pub drop_all-eq :
    (cs : List Conn) (p : Pool)
    → drop_all cs p ≡ record p {
      stats = record p.stats { idle_conns = dec_by (length cs) p.stats.idle_conns };
      closes = shut cs p.closes;
    }
unfolding drop_all shut
drop_all-eq [] p = refl
drop_all-eq (c ∷ cs) p = drop_all-eq cs _

pub close_list-eq :
    (cs : List Conn) (p : Pool) → close_list cs p ≡ record p { closes = shut cs p.closes }
unfolding close_list shut
close_list-eq [] p = refl
close_list-eq (c ∷ cs) p = close_list-eq cs _

unfoldable pub shut_each : Dict (List Conn) → List ℕ → List ℕ
shut_each [] l = l
shut_each ((s, cs) ∷ m) l = shut_each m (shut cs l)

pub close_each-eq :
    (m : Dict (List Conn)) (p : Pool) → close_each m p ≡ record p { closes = shut_each m p.closes }
unfolding close_each shut_each
close_each-eq [] p = refl
close_each-eq ((s, cs) ∷ m) p = rw (close_list-eq cs p) (close_each-eq m _)

pub clear_server-Books :
    (s : String) {n : String → ℕ} {m : ℕ} (p : Pool) → Books n m p → Books n m (clear_server s p)
unfolding clear_server
clear_server-Books s p v = rw (drop_all-eq (idle p s) p) (erase-Books s p _ v)

pub close-Books : {n : String → ℕ} {m : ℕ} (p : Pool) → Books n m p → Books n m (close p)
unfolding close read lookup
close-Books {n} {m} p v =
    if_cases (Books n m) p.closed _ _ (λ _. v)
      λ _. rw (close_each-eq p.conns p) (record {
        active_is = v.active_is;
        open_le = λ j. ground (arith, v.open_le j);
        idle_le = λ j. ground (arith, v.idle_le j);
        of_server = λ j. tt;
        distinct = tt;
        active_conns_is = v.active_conns_is;
        idle_conns_is = λ h. cc;
        closed_empty = λ h. refl;
      })

-- The stale connections of a list, and the others.
abbrev pub stale : ℕ → ℕ → List Conn → ℕ
stale timeout now = count_if (is_stale timeout now)

abbrev pub fresh : ℕ → ℕ → List Conn → List Conn
fresh timeout now = keep_if (λ c. not (is_stale timeout now c))

unfoldable pub shut_stale : ℕ → ℕ → List Conn → List ℕ → List ℕ
shut_stale timeout now [] l = l
shut_stale timeout now (c ∷ cs) l =
    shut_stale timeout now cs (if is_stale timeout now c then c.transport ∷ l else l)

one-add : (n : ℕ) → 1 + n ≡ suc n
one-add n = omega arith

zero-add : (n : ℕ) → 0 + n ≡ n
zero-add n = omega arith

pub sweep-eq :
    (now : ℕ) (cs : List Conn) (p : Pool)
    → sweep now cs p ≡ record p {
      stats = record p.stats {
        idle_conns = dec_by (stale p.idle_timeout now cs) p.stats.idle_conns;
      };
      closes = shut_stale p.idle_timeout now cs p.closes;
    }
unfolding sweep shut_stale
sweep-eq now [] p = refl
sweep-eq now (c ∷ cs) p = elim (Bool-cases (is_stale p.idle_timeout now c)) [
  | inl old ↦ simp (old, one-add) (sweep-eq now cs _)
  | inr new ↦ simp (new, zero-add) (sweep-eq now cs _)
]

length-fresh :
    (timeout now : ℕ) (cs : List Conn)
    → length (fresh timeout now cs) + stale timeout now cs ≡ length cs
length-fresh timeout now [] = omega arith
length-fresh timeout now (c ∷ cs) = ground (arith, length-fresh timeout now cs)

fresh-OfServer :
    (s : String) (timeout now : ℕ) (cs : List Conn)
    → OfServer s cs
    → OfServer s (fresh timeout now cs)
fresh-OfServer s timeout now [] h = tt
fresh-OfServer s timeout now (c ∷ cs) h =
    if_cases (OfServer s) (not (is_stale timeout now c)) _ _
      (λ _. (h.0, fresh-OfServer s timeout now cs h.1)) (λ _. fresh-OfServer s timeout now cs h.1)

-- The entries of a snapshot that still stand in the map.
abbrev pub Current : Dict (List Conn) → Dict (List Conn) → Type 0
Current [] conns = Unit
Current ((s, cs) ∷ m) conns = (read [] s conns ≡ cs) × Current m conns

pub Current-insert :
    (s : String) (keep : List Conn) (m conns : Dict (List Conn))
    → lookup s m ≡ none
    → Current m conns
    → Current m (insert s keep conns)
unfolding lookup
Current-insert s keep [] conns new h = tt
Current-insert s keep ((j, cs) ∷ m) conns new h =
    ground
      (arith, Current-insert s keep m conns, read-insert [] s j keep conns, eq_iff s j, eq_iff j s)

Current-cons :
    (s : String) (cs : List Conn) (m conns : Dict (List Conn))
    → lookup s m ≡ none
    → Current m conns
    → Current m ((s, cs) ∷ conns)
unfolding lookup read
Current-cons s cs [] conns new h = tt
Current-cons s cs ((j, ds) ∷ m) conns new h =
    ground (arith, Current-cons s cs m conns, eq_iff s j, eq_iff j s)

pub Current-self : (m : Dict (List Conn)) → Distinct m → Current m m
unfolding lookup read
Current-self [] d = tt
Current-self ((s, cs) ∷ m) d =
    (ground (arith, eq_refl s), Current-cons s cs m m d.0 (Current-self m d.1))

reap_each-Books :
    (now : ℕ) (entries : Dict (List Conn)) {n : String → ℕ} {m : ℕ} (p : Pool)
    → p.closed ≡ false
    → Distinct entries
    → Current entries p.conns
    → Books n m p
    → Books n m (reap_each now entries p)
unfolding reap_each
reap_each-Books now [] p o d h v = v
reap_each-Books now ((s, cs) ∷ rest) {n} {m} p o d h v = rw (sweep-eq now cs p) (
    reap_each-Books now rest _ o d.1 (Current-insert s _ rest p.conns d.0 h.1) (
      shrink-Books s p (fresh p.idle_timeout now cs) (stale p.idle_timeout now cs) _ o
        (ground (arith, length-fresh p.idle_timeout now cs, h.0))
        (fresh-OfServer s p.idle_timeout now cs (rw h.0 at (v.of_server s))) v))

pub reap-Books :
    (now : ℕ) {n : String → ℕ} {m : ℕ} (p : Pool) → Books n m p → Books n m (reap now p)
unfolding reap
reap-Books now {n} {m} p v =
    if_cases (Books n m) p.closed _ _ (λ _. v)
      (λ o. reap_each-Books now p.conns p o v.distinct (Current-self p.conns v.distinct) v)
