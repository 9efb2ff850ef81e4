-- ===== src/Gateway/HostLaws.antt =====
-- The gauge of hosts, the list of hosts, and a host that is replaced.
use fi_mcp_kit.Base.{
  ℕ, suc, ◌+◌, ◌≡◌, ◌∙◌, refl, sym, ap, String, true, false, ◌||◌, Option, none, some, List, [],
  ◌∷◌, arith, str_eq, eq_refl, text-cases, if_cases, subst, inl, inr, contains, length,
  if◌then◌else◌,
}
use fi_mcp_kit.Base.Dict.{
  Dict, lookup, insert, erase, lookup-insert, lookup-insert_self, lookup-erase, Distinct,
  insert-Distinct, erase-Distinct, standing, length-insert, length-erase,
}
use fi_mcp_kit.Base.Int.{ℤ, pos, inc, dec}
use fi_mcp_kit.Base.Text.{trim_space}
use fi_mcp_kit.Registry.Types.{Registry, Server}
use fi_mcp_kit.Gateway.Hosts.{
  Hub, new_hub, register_host, unregister_found, unregister_host, get_host, host_leaves, is_some,
  names_it, registry_names, is_allowed_server, put_names, with_registry_names, keys, list_hosts,
}

contains-keys : (n : String) (d : Dict ℕ) → contains (keys d) n ≡ is_some (lookup n d)
unfolding lookup
contains-keys n [] = refl
contains-keys n ((k, v) ∷ d) = ground (arith, contains-keys n d)

lookup-put_names :
    (n : String) (servers : List (Option Server)) (d : Dict ℕ)
    → str_eq (trim_space n) "" ≡ false
    → is_some (lookup n (put_names servers d)) ≡ (is_some (lookup n d) || names_it n servers)
lookup-put_names n [] d h = ground arith
lookup-put_names n (none ∷ rest) d h = lookup-put_names n rest d h
lookup-put_names n (some s ∷ rest) d h = elim (text-cases s.name n) [
  | inl (p, e) ↦
      let seen : str_eq (trim_space s.name) "" ≡ false =
        subst (λ x. str_eq (trim_space x) "" ≡ false) (sym p) h in
      simp (seen, e)
        (ground
          (arith, lookup-put_names n rest (insert s.name 0 d) h, lookup-insert s.name n 0 d, e))
  | inr (ne, e) ↦ simp e (
      if_cases
        (λ x. is_some (lookup n (put_names rest x)) ≡ (is_some (lookup n d) || names_it n rest))
        (str_eq (trim_space s.name) "") _ _ (λ b. lookup-put_names n rest d h)
        (λ b.
          ground
            (arith, lookup-put_names n rest (insert s.name 0 d) h, lookup-insert s.name n 0 d, e)))
]

-- Of the names that are not blank, ListHosts lists those of the servers that isAllowedServer allows.
pub list_hosts-is_allowed_server :
    (n : String) (h : Hub)
    → str_eq (trim_space n) "" ≡ false
    → contains (list_hosts h) n ≡ is_allowed_server n h
unfolding list_hosts is_allowed_server
list_hosts-is_allowed_server n h e =
    contains-keys n (with_registry_names h.registry h.hosts) ∙ go h.registry
  where
    go :
        (r : Option Registry)
        → is_some (lookup n (with_registry_names r h.hosts))
          ≡ (if is_some (lookup n h.hosts) then true else registry_names n r)
    go none = ground arith
    go (some reg) = ground (arith, lookup-put_names n reg.servers h.hosts e)

-- A host connects, and the handler of a connection ends.
pub data Event : Type 0 where
  joins : String → ℕ → Event
  leaves : String → ℕ → Event

abbrev pub apply : Event → Hub → Hub
apply (joins n conn) h = register_host n conn h
apply (leaves n conn) h = host_leaves n conn h

abbrev pub run : List Event → Hub → Hub
run [] h = h
run (e ∷ es) h = run es (apply e h)

-- How many of the hosts that connected replaced another.
abbrev pub replaces : Event → Hub → ℕ
replaces (joins n conn) h = standing (lookup n h.hosts)
replaces (leaves n conn) h = 0

abbrev pub replacements : List Event → Hub → ℕ
replacements [] h = 0
replacements (e ∷ es) h = replaces e h + replacements es (apply e h)

-- The gauge counts the hosts and those replaced so far.
record Gauge (k : ℕ) (h : Hub) : Type 0 where
  distinct : Distinct h.hosts
  counted : h.hosts_connected ≡ pos (length h.hosts + k)

inc-pos : (x : ℤ) (n : ℕ) → x ≡ pos n → inc x ≡ pos (suc n)
inc-pos x n e = ap inc e

leave-Gauge :
    (k : ℕ) (n : String) (o : Option ℕ) (h : Hub)
    → lookup n h.hosts ≡ o
    → Gauge k h
    → Gauge k (unregister_found n o h)
unfolding unregister_found
leave-Gauge k n none h e g = g
leave-Gauge k n (some conn) h e g =
    let shorter = length-erase n h.hosts g.distinct in
    let sum : length h.hosts + k ≡ suc (length (erase n h.hosts) + k) =
      ground (arith, shorter, e) in
    record {
      distinct = erase-Distinct n h.hosts g.distinct;
      counted = ap dec (g.counted ∙ ap pos sum);
    }

apply-Gauge : (k : ℕ) (e : Event) (h : Hub) → Gauge k h → Gauge (replaces e h + k) (apply e h)
unfolding register_host host_leaves unregister_host
apply-Gauge k (joins n conn) h g = record {
  distinct = insert-Distinct n conn h.hosts g.distinct;
  counted = ap inc g.counted ∙ ap pos (ground (arith, length-insert n conn h.hosts));
}
apply-Gauge k (leaves n conn) h g =
    let u = leave-Gauge k n (lookup n h.hosts) h refl g in
    record { distinct = u.distinct; counted = u.counted ∙ ap pos (ground arith) }

run-Gauge :
    (k : ℕ) (es : List Event) (h : Hub) → Gauge k h → Gauge (replacements es h + k) (run es h)
run-Gauge k [] h g = record { distinct = g.distinct; counted = g.counted ∙ ap pos (omega arith) }
run-Gauge k (e ∷ es) h g =
    let r = run-Gauge (replaces e h + k) es (apply e h) (apply-Gauge k e h g) in
    record { distinct = r.distinct; counted = r.counted ∙ ap pos (omega arith) }

-- After any sequence of connects and disconnects of hosts, HostsConnected exceeds the number of hosts
-- by the number of hosts that replaced another.
pub hosts_connected-run :
    (reg : Option Registry) (es : List Event)
    → let h = run es (new_hub reg) in
      h.hosts_connected ≡ pos (length h.hosts + replacements es (new_hub reg))
unfolding new_hub
hosts_connected-run reg es =
    let g = run-Gauge 0 es (new_hub reg) record { distinct = tt; counted = refl } in
    g.counted ∙ ap pos (omega arith)

gone :
    (n : String) (o : Option ℕ) (h : Hub)
    → lookup n h.hosts ≡ o
    → lookup n (unregister_found n o h).hosts ≡ none
unfolding unregister_found
gone n none h e = e
gone n (some conn) h e = ground (arith, lookup-erase n n h.hosts, eq_refl n)

-- When a host has been replaced, the new one is in the table until the handler of the replaced one
-- ends, which takes it out.
pub get_host-host_leaves :
    (n : String) (old new : ℕ) (h : Hub)
    → let g = register_host n new (register_host n old h) in
      (get_host n g ≡ some new) × (get_host n (host_leaves n old g) ≡ none)
unfolding get_host register_host host_leaves unregister_host
get_host-host_leaves n old new h = (
  lookup-insert_self n new (insert n old h.hosts),
  gone n (lookup n (insert n new (insert n old h.hosts))) _ refl,
)
