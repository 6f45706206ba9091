-- ===== src/P2p/Server/Search.antt =====
-- The search through the device list.
use personal_journal.Base.{
  ℕ, suc, ◌+◌, ◌≤◌, ◌≡◌, refl, sym, ◌∙◌, ap, Bool, true, false, Bool-cases, inl, inr, Option, none,
  some, List, [], ◌∷◌, ◌==◌, ==→eq, arith, if◌then◌else◌,
}
use personal_journal.P2p.Message.{DeviceInfo, query_device_info_response}
use personal_journal.P2p.Devices.{Device}
use personal_journal.P2p.Server.{Found, nothing_found, note_query, note_src, info_of, search}

-- How many entries are of a device, and the last of them.
abbrev pub registered : ℕ → List Device → ℕ
registered sn [] = 0
registered sn (d ∷ ds) = let rest = registered sn ds in if d.device_sn == sn then suc rest else rest

abbrev pub last_of : ℕ → List Device → Option Device
last_of sn [] = none
last_of sn (d ∷ ds) =
    let rest = last_of sn ds in
    elim rest [ some e ↦ some e | none ↦ if d.device_sn == sn then some d else none ]

-- The search without its early end.
abbrev pub note_all : (query_sn src_sn : ℕ) → List Device → Found → Found
note_all query_sn src_sn [] f = f
note_all query_sn src_sn (d ∷ ds) f =
    note_all query_sn src_sn ds (note_src src_sn d (note_query query_sn d f))

num-note :
    (q s : ℕ) (d : Device) (ds : List Device) (f : Found)
    → (note_src s d (note_query q d f)).num + registered q ds + registered s ds
      ≡ f.num + registered q (d ∷ ds) + registered s (d ∷ ds)
num-note q s d ds f = ground arith

pub unregistered :
    (sn : ℕ) (d : Device) (ds : List Device)
    → registered sn (d ∷ ds) ≡ 0
    → ((d.device_sn == sn) ≡ false) × (registered sn ds ≡ 0)
unregistered sn d ds e = elim (Bool-cases (d.device_sn == sn)) [
  | inl y ↦ absurd (positive (registered sn ds) (d.device_sn == sn) y e)
  | inr n ↦ (n, ground arith)
]
  where
    positive : (k : ℕ) (b : Bool) → b ≡ true → ¬ ((if b then suc k else k) ≡ 0)
    positive k true y e = omega (arith, e)
    positive k false y e = cc

note_all-none :
    (q s : ℕ) (ds : List Device) (f : Found)
    → registered q ds ≡ 0
    → registered s ds ≡ 0
    → note_all q s ds f ≡ f
note_all-none q s [] f a b = refl
note_all-none q s (d ∷ ds) f a b =
    let x = unregistered q d ds a in
    let y = unregistered s d ds b in rw (x.0, y.0) (note_all-none q s ds f x.1 y.1)

-- The early end is harmless as long as at most two entries count.
pub search-note_all :
    (q s : ℕ) (ds : List Device) (f : Found)
    → f.num + registered q ds + registered s ds ≤ 2
    → search q s ds f ≡ note_all q s ds f
unfolding search
search-note_all q s [] f few = refl
search-note_all q s (d ∷ ds) f few =
    let f' = note_src s d (note_query q d f) in
    let same = num-note q s d ds f in
    elim (Bool-cases (f'.num == 2)) [
      | inl two ↦
          let n = ==→eq f'.num 2 two in
          rw two (
            sym
              (note_all-none q s ds f' (omega (arith, few, same, n)) (omega (arith, few, same, n))))
      | inr more ↦ rw more (search-note_all q s ds f' (omega (arith, few, same)))
    ]

abbrev pub dst_or : Option Device → Option ℕ → Option ℕ
dst_or none x = x
dst_or (some d) x = some d.pbev

abbrev pub cmd_or : Option Device → ℕ → ℕ
cmd_or none x = x
cmd_or (some d) x = query_device_info_response

abbrev pub info_or : Option Device → DeviceInfo → DeviceInfo
info_or none x = x
info_or (some d) x = info_of d

-- What the search leaves, given the last entry of each of the two devices.
pub record Noted (query src : Option Device) (f g : Found) : Type 0 where
  pub cmd : g.cmd ≡ cmd_or query f.cmd
  pub query_info : g.query ≡ info_or query f.query
  pub dst : g.dst ≡ dst_or query f.dst
  pub src_info : g.src ≡ info_or src f.src

note_all-Noted :
    (q s : ℕ) (ds : List Device) (f : Found)
    → Noted (last_of q ds) (last_of s ds) f (note_all q s ds f)
note_all-Noted q s [] f = record { cmd = refl; query_info = refl; dst = refl; src_info = refl }
note_all-Noted q s (d ∷ ds) f =
    let rest = note_all-Noted q s ds (note_src s d (note_query q d f)) in
    record {
      cmd = rest.cmd ∙ ground arith;
      query_info = rest.query_info ∙ ground arith;
      dst = rest.dst ∙ ground arith;
      src_info = rest.src_info ∙ ground arith;
    }

pub search-Noted :
    (q s : ℕ) (ds : List Device)
    → registered q ds + registered s ds ≤ 2
    → Noted (last_of q ds) (last_of s ds) nothing_found (search q s ds nothing_found)
search-Noted q s ds few =
    rw (search-note_all q s ds nothing_found (omega (arith, few)))
      (note_all-Noted q s ds nothing_found)

-- Without an entry of the queried device there is no bufferevent, however often the other one is
-- registered.
pub search-unregistered :
    (q s : ℕ) (ds : List Device) (f : Found) → registered q ds ≡ 0 → (search q s ds f).dst ≡ f.dst
unfolding search
search-unregistered q s [] f e = refl
search-unregistered q s (d ∷ ds) f e =
    let x = unregistered q d ds e in
    let rest = search-unregistered q s ds (note_src s d f) x.1 in
    let kept : (note_src s d f).dst ≡ f.dst = ground arith in
    rw x.0 (elim (Bool-cases ((note_src s d f).num == 2)) [
      | inl two ↦ rw two kept
      | inr more ↦ rw more (rest ∙ kept)
    ])

-- Both devices are there.
pub search-both :
    (q s : ℕ) (ds : List Device) (d e : Device)
    → registered q ds + registered s ds ≤ 2
    → last_of q ds ≡ some d
    → last_of s ds ≡ some e
    → let f = search q s ds nothing_found in
      (f.cmd ≡ query_device_info_response)
      × (f.query ≡ info_of d)
      × (f.dst ≡ some d.pbev)
      × (f.src ≡ info_of e)
search-both q s ds d e few last last' =
    let n = search-Noted q s ds few in
    (
      n.cmd ∙ ap (λ o. cmd_or o nothing_found.cmd) last,
      n.query_info ∙ ap (λ o. info_or o nothing_found.query) last,
      n.dst ∙ ap (λ o. dst_or o nothing_found.dst) last,
      n.src_info ∙ ap (λ o. info_or o nothing_found.src) last',
    )
