-- ===== src/Discovery/Sources.antt =====
-- Where the fields of a backend of userspace/discovery/docker.go come from: the health check, the
-- network and the label of the port.

use mathlib.Core.Option.{some-injective}
use Prim.Native.String.{String}
use text.Mathlib.Text.{◌==◌ as str_eq}
use text.Mathlib.TextEquality.{eq_iff}
use mathlib.Core.Option
use container_lb.Base.Monad.{◌>>=◌}
use container_lb.Go.Dict.{lookup}
use container_lb.Base.{
  ℕ, suc, ◌≡◌, ◌∙◌, ◌⊎◌, refl, inl, inr, true, Bool-cases, Option-cases, Option, none, some, List,
  [], ◌∷◌, ◌==◌, ==_iff, if◌then◌else◌,
}
use container_lb.Base.Lists.{length, get_elem?}
use container_lb.Go.Net.{Ip, HardwareAddr, V4, to4}
use container_lb.Discovery.{
  Container, Network, Inspect, Text, is_serving, network_address, address, port_of,
}

-- The state of a health check that is configured, or none.
abbrev pub IsHealthy : Option String → Type 0
IsHealthy none = Unit {0}
IsHealthy (some status) = (status ≡ "healthy") ⊎ (status ≡ "none")

pub is_serving-IsHealthy :
    (i : Inspect) → is_serving i ≡ true → (i.running ≡ true) × IsHealthy i.health
unfolding is_serving
is_serving-IsHealthy i h = elim (Bool-cases i.running) [
  | inl up ↦ (up, checked i.health (rw up at h))
  | inr down ↦ absurd (cc (rw down at h))
]
  where
    checked :
        (o : Option String)
        → is_serving (record i { running = true; health = o }) ≡ true
        → IsHealthy o
    checked none h = tt
    checked (some status) h = elim (Bool-cases (str_eq status "healthy")) [
      | inl good ↦ inl ((eq_iff status "healthy").0 good)
      | inr other ↦ inr ((eq_iff status "none").0 (rw other at h))
    ]

module _ (text : Text) where
  -- An IPv4 address and a MAC address of six bytes that one of the networks has.
  pub record IsAddress (ns : List Network) (ip : Ip) (mac : HardwareAddr) : Type 0 where
    pub network : Network
    pub place : ℕ
    pub at : get_elem? ns place ≡ some network
    pub parsed_ip : text.parse_ip network.ip_address ≡ some ip
    pub parsed_mac : text.parse_mac network.mac_address ≡ some mac
    pub ipv4 : (v4 : V4) × (to4 ip ≡ some v4)
    pub six : length mac ≡ 6

  network_address-IsAddress :
      (n : Network) (ns : List Network) (a : Ip × HardwareAddr)
      → network_address text n ≡ some a
      → IsAddress (n ∷ ns) a.0 a.1
  network_address-IsAddress n ns a h = elim (Bool-cases (str_eq n.ip_address "")) [
    | inl missing ↦ absurd (cc (rw missing at h))
    | inr set ↦ elim (Option-cases (text.parse_ip n.ip_address)) [
      | inl bad ↦ absurd (cc (rw (set, bad) at h))
      | inr (ip, parsed) ↦ elim (Option-cases (to4 ip)) [
        | inl long ↦ absurd (cc (rw (set, parsed, long) at h))
        | inr (v4, short) ↦ elim (Option-cases (text.parse_mac n.mac_address)) [
          | inl bad ↦ absurd (cc (rw (set, parsed, short, bad) at h))
          | inr (mac, read) ↦
              measured ip mac v4 parsed short read (rw (set, parsed, short, read) at h)
        ]
      ]
    ]
  ]
    where
      measured :
          (ip : Ip) (mac : HardwareAddr) (v4 : V4)
          → text.parse_ip n.ip_address ≡ some ip
          → to4 ip ≡ some v4
          → text.parse_mac n.mac_address ≡ some mac
          → (if length mac == 6 then some (ip, mac) else none) ≡ some a
          → IsAddress (n ∷ ns) a.0 a.1
      measured ip mac v4 parsed short read h = elim (Bool-cases (length mac == 6)) [
        | inl six ↦ rw (← some-injective (ip, mac) a (rw six at h)) (record {
          network = n;
          place = 0;
          at = refl;
          parsed_ip = parsed;
          parsed_mac = read;
          ipv4 = (v4, short);
          six = (==_iff (length mac) 6).0 six;
        })
        | inr other ↦ absurd (cc (rw other at h))
      ]

  pub address-IsAddress :
      (ns : List Network) (a : Ip × HardwareAddr) → address text ns ≡ some a → IsAddress ns a.0 a.1
  unfolding address
  address-IsAddress [] a h = absurd (cc h)
  address-IsAddress (n ∷ ns) a h = elim (Option-cases (network_address text n)) [
    | inl skipped ↦
        let r = address-IsAddress ns a (rw skipped at h) in
        record {
          network = r.network;
          place = suc r.place;
          at = r.at;
          parsed_ip = r.parsed_ip;
          parsed_mac = r.parsed_mac;
          ipv4 = r.ipv4;
          six = r.six;
        }
    | inr (x, taken) ↦ network_address-IsAddress n ns a (taken ∙ (rw taken at h))
  ]

  -- The port of the label, where there is one that can be read, and that of the watcher otherwise.
  abbrev IsRead : ℕ → Option ℕ → ℕ → Type 0
  IsRead target_port none port = port ≡ target_port
  IsRead target_port (some p) port = port ≡ p

  abbrev pub IsPort : ℕ → Option String → ℕ → Type 0
  IsPort target_port none port = port ≡ target_port
  IsPort target_port (some label) port = IsRead target_port (text.parse_port label) port

  pub port_of-IsPort :
      (target_port : ℕ) (c : Container)
      → IsPort target_port (lookup "lb.port" c.labels) (port_of text target_port c)
  unfolding port_of
  port_of-IsPort target_port c = labelled (lookup "lb.port" c.labels)
    where
      read : (o : Option ℕ) → IsRead target_port o (Option.get_or o target_port)
      read none = refl
      read (some p) = refl

      labelled :
          (o : Option String)
          → IsPort target_port o (Option.get_or (o >>= λ label. text.parse_port label) target_port)
      labelled none = refl
      labelled (some label) = read (text.parse_port label)
