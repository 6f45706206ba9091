-- ===== src/Dns/Name/Traps.antt =====
-- Packets on which ReadName does not come back: a pointer to itself, and the root name.
use personal_journal.Base.{
  ℕ, zero, suc, ◌+◌, ◌*◌, ◌<◌, ◌≡◌, refl, ◌∙◌, Bool, true, some, [], ◌∷◌, ◌++◌, arith, length,
  get_elem?, get_elem?-append, append_assoc, length-append, fault, out_of_fuel,
}
use personal_journal.Dns.Memory.{Bytes}
use personal_journal.Dns.Name.{Cursor, capacity, read_loop, finish_name, read_name, start}
use personal_journal.Dns.Name.Walk.{read_loop-pointer, read_loop-zero}

module _ (alloc : ℕ → Bool) (granted : (n : ℕ) → alloc n ≡ true) (buf : Bytes) where
  read_loop_self :
      (fuel high low : ℕ) (s : Cursor)
      → get_elem? buf s.reader ≡ some (192 + high)
      → get_elem? buf (s.reader + 1) ≡ some low
      → high * 256 + low ≡ s.reader
      → s.count < capacity s.times_for_realloc
      → read_loop alloc buf fuel s ≡ out_of_fuel
  unfolding read_loop
  read_loop_self zero high low s e e' self room = refl
  read_loop_self (suc fuel) high low s e e' self room =
      read_loop-pointer alloc granted buf s fuel high low e e' room
      ∙ read_loop_self fuel high low (record s { reader = high * 256 + low; jumped = true })
          (rw self e) (rw self e') refl room

  -- A compression pointer that leads to itself keeps ReadName in its loop for ever: no number of
  -- rounds is enough, wherever in the packet it stands.
  pub read_name-self_pointer :
      (pre post : Bytes) (high low fuel : ℕ)
      → buf ≡ pre ++ (192 + high) ∷ low ∷ post
      → high * 256 + low ≡ length pre
      → read_name alloc buf fuel (length pre) ≡ out_of_fuel
  unfolding read_name
  read_name-self_pointer pre post high low fuel e self = rw (
    granted 0,
    read_loop_self fuel high low (start (length pre))
        (rw e (get_elem?-append pre (192 + high) (low ∷ post) (length pre) refl))
        (rw (e, ← append_assoc pre ((192 + high) ∷ []) (low ∷ post))
          (get_elem?-append (pre ++ (192 + high) ∷ []) low post (length pre + 1)
            (omega (arith, length-append pre ((192 + high) ∷ [])))))
        self (omega arith),
  )

  -- The root name, a lone zero, makes ReadName store a byte in front of its block.
  pub read_name-root :
      (pre post : Bytes) (fuel : ℕ)
      → buf ≡ pre ++ 0 ∷ post
      → read_name alloc buf (suc fuel) (length pre) ≡ fault
  unfolding read_name finish_name
  read_name-root pre post fuel e = rw (
    granted 0,
    read_loop-zero alloc granted buf (start (length pre)) fuel
        (rw e (get_elem?-append pre 0 post (length pre) refl)),
  )
