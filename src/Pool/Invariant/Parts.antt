-- ===== src/Pool/Invariant/Parts.antt =====
-- The books against a demand: `n s` connections or dials of server `s` are out, `m` in all. One
-- lemma for each thing that an operation does to the books.
use mathlib.Core.Path.{fun_ext}
use fi_mcp_kit.Base.{
  ℕ, suc, ◌+◌, ◌≤◌, ◌<◌, ◌≡◌, subst, String, true, false, List, [], ◌∷◌, All, arith, str_eq, eq_iff,
  length, if◌then◌else◌,
}
use fi_mcp_kit.Base.Dict.{
  Distinct, total, insert, read-insert, total-insert, insert-Distinct, erase, erase-nil, read-erase,
  total-erase, erase-Distinct,
}
use fi_mcp_kit.Base.Int.{pos, inc, dec, dec_by, dec_by-pos}
use fi_mcp_kit.PoolState.{Pool, Conn, idle, active, close_conn, forget_idle, lend, reserve, release}

abbrev pub OfServer : String → List Conn → Type 0
OfServer s = All (λ c. c.server_name ≡ s)

pub record Books (n : String → ℕ) (m : ℕ) (p : Pool) : Type 0 where
  pub active_is : (j : String) → active p j ≡ pos (n j)
  pub open_le : (j : String) → n j + length (idle p j) ≤ p.max_open
  pub idle_le : (j : String) → length (idle p j) ≤ p.max_idle
  pub of_server : (j : String) → OfServer j (idle p j)
  pub distinct : Distinct p.conns
  pub active_conns_is : p.stats.active_conns ≡ pos m
  pub idle_conns_is : p.closed ≡ false → p.stats.idle_conns ≡ pos (total length p.conns)
  pub closed_empty : p.closed ≡ true → p.conns ≡ []

-- One more of server `s`.
abbrev pub plus : String → (String → ℕ) → String → ℕ
plus s n j = (if str_eq s j then 1 else 0) + n j

pub Books-demand :
    {n n' : String → ℕ} {m m' : ℕ} {p : Pool}
    → ((j : String) → n j ≡ n' j)
    → m ≡ m'
    → Books n m p
    → Books n' m' p
Books-demand {n} {n'} {m} {m'} {p} h e v =
    subst (λ f. Books f m' p) (fun_ext h) (subst (λ k. Books n k p) e v)

module _ (s : String) {n : String → ℕ} {m : ℕ} (p : Pool) where
  pub reserve-Books :
      Books n m p → n s + length (idle p s) < p.max_open → Books (plus s n) (suc m) (reserve s p)
  reserve-Books v room = record {
    active_is = λ j. ground (
      arith,
      v.active_is j,
      v.active_is s,
      eq_iff s j,
      read-insert (pos 0) s j (inc (active p s)) p.active_count,
    );
    open_le = λ j. ground (arith, v.open_le j, eq_iff s j);
    idle_le = v.idle_le;
    of_server = v.of_server;
    distinct = v.distinct;
    active_conns_is = ground (arith, v.active_conns_is);
    idle_conns_is = v.idle_conns_is;
    closed_empty = v.closed_empty;
  }

  pub release-Books : Books (plus s n) (suc m) p → Books n m (release s p)
  release-Books v = record {
    active_is = λ j. ground (
      arith,
      v.active_is j,
      v.active_is s,
      eq_iff s j,
      eq_iff s s,
      read-insert (pos 0) s j (dec (active p s)) p.active_count,
    );
    open_le = λ j. ground (arith, v.open_le j, eq_iff s j);
    idle_le = v.idle_le;
    of_server = v.of_server;
    distinct = v.distinct;
    active_conns_is = ground (arith, v.active_conns_is);
    idle_conns_is = v.idle_conns_is;
    closed_empty = v.closed_empty;
  }

  -- The idle list of a server loses its newest connection.
  pub forget-Books :
      (c : Conn) (rest : List Conn)
      → p.closed ≡ false
      → idle p s ≡ c ∷ rest
      → Books n m p
      → Books n m (record (forget_idle p) { conns = insert s rest p.conns })
  forget-Books c rest o e v = record {
    active_is = v.active_is;
    open_le = λ j. ground (arith, v.open_le j, eq_iff s j, read-insert [] s j rest p.conns);
    idle_le = λ j. ground (arith, v.idle_le j, eq_iff s j, read-insert [] s j rest p.conns);
    of_server = λ j. ground (arith, v.of_server j, eq_iff s j, read-insert [] s j rest p.conns);
    distinct = insert-Distinct s rest p.conns v.distinct;
    active_conns_is = v.active_conns_is;
    idle_conns_is = λ h. ground (arith, v.idle_conns_is h, total-insert length [] s rest p.conns);
    closed_empty = λ h. ground (arith, h, o);
  }

  pub close_conn-Books : (c : Conn) → Books n m p → Books n m (close_conn c p)
  close_conn-Books c v = record {
    active_is = v.active_is;
    open_le = v.open_le;
    idle_le = v.idle_le;
    of_server = v.of_server;
    distinct = v.distinct;
    active_conns_is = v.active_conns_is;
    idle_conns_is = v.idle_conns_is;
    closed_empty = v.closed_empty;
  }

  pub lend-Books :
      Books n m p → n s + length (idle p s) < p.max_open → Books (plus s n) (suc m) (lend s p)
  lend-Books v room =
      let w = reserve-Books v room in
      record {
        active_is = w.active_is;
        open_le = w.open_le;
        idle_le = w.idle_le;
        of_server = w.of_server;
        distinct = w.distinct;
        active_conns_is = w.active_conns_is;
        idle_conns_is = w.idle_conns_is;
        closed_empty = w.closed_empty;
      }

  -- A connection comes back and is kept.
  pub keep-Books :
      (c : Conn)
      → p.closed ≡ false
      → c.server_name ≡ s
      → length (idle p s) < p.max_idle
      → n s + length (idle p s) < p.max_open
      → Books n m p
      → Books n m (record p {
        conns = insert s (c ∷ idle p s) p.conns;
        stats = record p.stats { idle_conns = inc p.stats.idle_conns };
      })
  keep-Books c o e fits room v = record {
    active_is = v.active_is;
    open_le =
        λ j. ground (arith, v.open_le j, eq_iff s j, read-insert [] s j (c ∷ idle p s) p.conns);
    idle_le =
        λ j. ground (arith, v.idle_le j, eq_iff s j, read-insert [] s j (c ∷ idle p s) p.conns);
    of_server = λ j. ground (
      arith,
      v.of_server j,
      v.of_server s,
      eq_iff s j,
      read-insert [] s j (c ∷ idle p s) p.conns,
    );
    distinct = insert-Distinct s (c ∷ idle p s) p.conns v.distinct;
    active_conns_is = v.active_conns_is;
    idle_conns_is =
        λ h. ground (arith, v.idle_conns_is h, total-insert length [] s (c ∷ idle p s) p.conns);
    closed_empty = λ h. ground (arith, h, o);
  }

  -- The idle list of a server goes.
  pub erase-Books :
      (closes : List ℕ)
      → Books n m p
      → Books n m (record p {
        conns = erase s p.conns;
        stats = record p.stats { idle_conns = dec_by (length (idle p s)) p.stats.idle_conns };
        closes = closes;
      })
  erase-Books closes v = record {
    active_is = v.active_is;
    open_le = λ j. ground (arith, v.open_le j, eq_iff s j, read-erase [] s j p.conns);
    idle_le = λ j. ground (arith, v.idle_le j, eq_iff s j, read-erase [] s j p.conns);
    of_server = λ j. ground (arith, v.of_server j, eq_iff s j, read-erase [] s j p.conns);
    distinct = erase-Distinct s p.conns v.distinct;
    active_conns_is = v.active_conns_is;
    idle_conns_is = λ h. ground (
      arith,
      v.idle_conns_is h,
      total-erase length [] s p.conns,
      dec_by-pos (length (idle p s)) (total length (erase s p.conns)),
    );
    closed_empty = λ h. rw (v.closed_empty h) (erase-nil s);
  }

  -- The idle list of a server is replaced by a part of it.
  pub shrink-Books :
      (keep : List Conn) (gone : ℕ) (closes : List ℕ)
      → p.closed ≡ false
      → length keep + gone ≡ length (idle p s)
      → OfServer s keep
      → Books n m p
      → Books n m (record p {
        conns = insert s keep p.conns;
        stats = record p.stats { idle_conns = dec_by gone p.stats.idle_conns };
        closes = closes;
      })
  shrink-Books keep gone closes o e named v = record {
    active_is = v.active_is;
    open_le = λ j. ground (arith, v.open_le j, eq_iff s j, read-insert [] s j keep p.conns);
    idle_le = λ j. ground (arith, v.idle_le j, eq_iff s j, read-insert [] s j keep p.conns);
    of_server = λ j. ground (arith, v.of_server j, eq_iff s j, read-insert [] s j keep p.conns);
    distinct = insert-Distinct s keep p.conns v.distinct;
    active_conns_is = v.active_conns_is;
    idle_conns_is = λ h. ground (
      arith,
      v.idle_conns_is h,
      total-insert length [] s keep p.conns,
      dec_by-pos gone (total length (insert s keep p.conns)),
    );
    closed_empty = λ h. ground (arith, h, o);
  }
