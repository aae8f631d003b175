-- ===== src/Synt/Header.antt =====
-- `read_header` on a header as the files have it: a line each for the name, three numbers, and the
-- names of the semaphores.
use chic_os.Base.{
  ℕ, zero, suc, ◌+◌, ◌≤◌, ◌<◌, ◌≡◌, ◌≢◌, refl, sym, ◌∙◌, ap, Bool, true, false, some, List, [], ◌∷◌,
  ◌++◌, arith, ltb, ◌==◌, if◌then◌else◌, length, Outcome, ok, ◌>>=◌, Bool-cases, inl, inr, subst,
  branch-false, branch-true, length-append, take_all, append_cons, append_nil, length-snoc,
  ok-injective,
}
use chic_os.Memory.{Memory, c_alloc}
use chic_os.Stdio.{File, digits}
use chic_os.Stdio.Scan.{scan_word, scan_int, fgetc}
use chic_os.Stdio.Scanned.{Stands, Solid, IsInt, fgetc-Stands, scan_word-Stands, scan_int-Stands}
use chic_os.Process.{SyntHeader, SyntBuffer}
use chic_os.Semaphore.{SemaphoreList, init_semaphore}
use chic_os.Synt.{Contents, header_name, read_names, read_fields, name_rounds, read_header}

-- The bytes of the last line that name a semaphore.
abbrev pub unspaced : List ℕ → List ℕ
unspaced [] = []
unspaced (c ∷ s) = let rest = unspaced s in if c == b' ' then rest else c ∷ rest

abbrev pub OneLine : List ℕ → Type 0
OneLine [] = Unit {0}
OneLine (c ∷ s) = (c ≢ 10) × OneLine s

-- One `init_semaphore` with the value 1 for each name, in their order.
unfoldable pub init_all :
    List ℕ → List ℕ → SemaphoreList → Memory → Outcome (SemaphoreList × Memory)
init_all raw [] sl m = ok (sl, m)
init_all raw (c ∷ names) sl m = do
  (made, sl', m') ← init_semaphore raw c 1 sl m
  init_all raw names sl' m'

module _ (raw : List ℕ) where
  names_end :
      (rounds : ℕ) (names : List ℕ) (f : File) (sl : SemaphoreList) (m : Memory)
      → length names < 256
      → read_names (suc rounds) raw (10, f) names sl m ≡ ok (names, f, sl, m)
  unfolding read_names
  names_end rounds names f sl m lt = rw (fits) refl
    where
      fits : ltb (length names) 256 ≡ true
      fits = ground arith

  names_space :
      (rounds c : ℕ) (names : List ℕ) (f : File) (sl : SemaphoreList) (m : Memory)
      → (c == 10) ≡ false
      → (c == 32) ≡ true
      → read_names (suc rounds) raw (c, f) names sl m ≡ read_names rounds raw (fgetc f) names sl m
  unfolding read_names
  names_space rounds c names f sl m line space =
      branch-false (c == 10) _ _ line ∙ branch-true (c == 32) _ _ space

  names_add :
      (rounds c : ℕ) (names : List ℕ) (f : File) (sl : SemaphoreList) (m : Memory)
      → (c == 10) ≡ false
      → (c == 32) ≡ false
      → length names < 256
      → read_names (suc rounds) raw (c, f) names sl m ≡ (
          init_semaphore raw c 1 sl m >>= λ (made, sl', m').
          read_names rounds raw (fgetc f) (names ++ (c ∷ [])) sl' m')
  unfolding read_names
  names_add rounds c names f sl m line space lt =
      branch-false (c == 10) _ _ line
      ∙ branch-false (c == 32) _ _ space
      ∙ branch-true (ltb (length names) 256) _ _ fits
    where
      fits : ltb (length names) 256 ≡ true
      fits = ground arith

  add_one :
      (o : Outcome (Bool × SemaphoreList × Memory))
      (f : SemaphoreList → Memory → Outcome (SemaphoreList × Memory)) (end : SemaphoreList × Memory)
      → (o >>= λ (made, sl', m'). f sl' m') ≡ ok end
      → (made : Bool) × (sl' : SemaphoreList) × (m' : Memory) × (o ≡ ok (made, sl', m'))
        × (f sl' m' ≡ ok end)
  add_one (ok (made, sl', m')) f end e = (made, sl', m', refl, e)
  add_one Outcome.waits f end e = cc
  add_one Outcome.fault f end e = cc
  add_one Outcome.exits f end e = cc
  add_one Outcome.unfinished f end e = cc

  pub read_names-line :
      (s rest names : List ℕ) (rounds : ℕ) (f : File) (sl sl' : SemaphoreList) (m m' : Memory)
      → OneLine s
      → Stands (s ++ (10 ∷ rest)) f
      → length s < rounds
      → length names + length (unspaced s) < 256
      → init_all raw (unspaced s) sl m ≡ ok (sl', m')
      → (end : File) × (read_names rounds raw (fgetc f) names sl m
          ≡ ok (names ++ unspaced s, end, sl', m'))
        × Stands rest end
  unfolding init_all
  read_names-line s rest names zero f sl sl' m m' l at lt room run = absurd (omega arith)
  read_names-line [] rest names (suc rounds) f sl sl' m m' l at lt room run =
      let (end, got, stands) = fgetc-Stands 10 rest f at in
      (
        end,
        ap (λ r. read_names (suc rounds) raw r names sl m) got
            ∙ names_end rounds names end sl m (omega arith)
            ∙ ap (λ (r : SemaphoreList × Memory). ok (names, end, r.0, r.1)) (ok-injective run)
            ∙ ap (λ ns. ok (ns, end, sl', m')) (sym (append_nil names)),
        stands,
      )
  read_names-line (c ∷ s) rest names (suc rounds) f sl sl' m m' (ne, l) at lt room run =
      let (f1, got, stands) = fgetc-Stands c (s ++ (10 ∷ rest)) f at in
      elim (Bool-cases (c == 32)) [
        | inl e ↦
            let un : unspaced (c ∷ s) ≡ unspaced s = rw (e) refl in
            let (end, read, stands') =
              read_names-line s rest names rounds f1 sl sl' m m' l stands (omega arith)
                (subst (λ u. length names + length u < 256) un room)
                (subst (λ u. init_all raw u sl m ≡ ok (sl', m')) un run) in
            (
              end,
              ap (λ r. read_names (suc rounds) raw r names sl m) got
                  ∙ names_space rounds c names f1 sl m (ground arith) e
                  ∙ read
                  ∙ ap (λ u. ok (names ++ u, end, sl', m')) (sym un),
              stands',
            )
        | inr e ↦
            let un : unspaced (c ∷ s) ≡ c ∷ unspaced s = rw (e) refl in
            let (made, sl1, m1, first, others) =
              add_one (init_semaphore raw c 1 sl m) (init_all raw (unspaced s)) (sl', m')
                (subst (λ u. init_all raw u sl m ≡ ok (sl', m')) un run) in
            let less = subst (λ u. length names + length u < 256) un room in
            let (end, read, stands') =
              read_names-line s rest (names ++ (c ∷ [])) rounds f1 sl1 sl' m1 m' l stands
                (omega arith) (omega (arith, length-snoc names c)) others in
            (
              end,
              ap (λ r. read_names (suc rounds) raw r names sl m) got
                  ∙ names_add rounds c names f1 sl m (ground arith) e (omega arith)
                  ∙ ap
                      (λ o. o >>= λ (made, sl', m').
                        read_names rounds raw (fgetc f1) (names ++ (c ∷ [])) sl' m')
                      first
                  ∙ read
                  ∙ ap (λ u. ok (u, end, sl', m'))
                      (append_cons names c (unspaced s) ∙ ap (λ u. names ++ u) (sym un)),
              stands',
            )
      ]

-- What the lines of a header say.
pub record HeaderText : Type 0 where
  pub name : List ℕ
  pub seg_flag : List ℕ
  pub priority : List ℕ
  pub seg_size : List ℕ
  pub semaphores : List ℕ

-- The header, and what follows it.
abbrev pub written : HeaderText → List ℕ → List ℕ
written t rest =
    t.name
    ++ (10 ∷ t.seg_flag
        ++ (10 ∷ t.priority ++ (10 ∷ t.seg_size ++ (10 ∷ t.semaphores ++ (10 ∷ rest)))))

abbrev pub IsName : List ℕ → Type 0
IsName [] = ⊥
IsName (c ∷ s) = Solid (c ∷ s) × (length (c ∷ s) ≤ 127)

pub record IsHeader (t : HeaderText) : Type 0 where
  pub name : IsName t.name
  pub seg_flag : IsInt t.seg_flag
  pub priority : IsInt t.priority
  pub seg_size : IsInt t.seg_size
  pub semaphores : OneLine t.semaphores
  pub few : length (unspaced t.semaphores) < 256

-- The header that the text stands for.
abbrev pub header_of : HeaderText → SyntHeader
header_of t = record {
  name = t.name;
  priority = digits 0 t.priority;
  rw_count = 0;
  seg_flag = digits 0 t.seg_flag;
  seg_size = digits 0 t.seg_size;
  semaphores = unspaced t.semaphores;
}

header_name_lem :
    (c : ℕ) (s : List ℕ) → length (c ∷ s) ≤ 127 → header_name (some (c ∷ s)) ≡ ok (c ∷ s)
unfolding header_name
header_name_lem c s h = rw (fits) (ap ok (take_all 127 (c ∷ s) h))
  where
    fits : ltb (length (c ∷ s)) 256 ≡ true
    fits = ground arith

fields_lem :
    (w : Contents) (f f1 f2 f3 f4 : File) (word name : List ℕ) (a b c : ℕ)
    → scan_word f ≡ (some word, f1)
    → header_name (some word) ≡ ok name
    → scan_int f1 ≡ ok (some a, f2)
    → scan_int f2 ≡ ok (some b, f3)
    → scan_int f3 ≡ ok (some c, f4)
    → read_fields w f
      ≡ ok (record w.header { name = name; seg_flag = a; priority = b; seg_size = c }, f4)
unfolding read_fields
fields_lem w f f1 f2 f3 f4 word name a b c e0 e1 e2 e3 e4 =
    rw (e0) (rw (e1) (rw (e2) (rw (e3) (rw (e4) refl))))

read_fields-written :
    (w : Contents) (t : HeaderText) (rest : List ℕ) (f : File)
    → IsHeader t
    → Stands (written t rest) f
    → (f' : File) × (read_fields w f
        ≡ ok (
          record w.header {
            name = t.name;
            seg_flag = digits 0 t.seg_flag;
            priority = digits 0 t.priority;
            seg_size = digits 0 t.seg_size;
          },
          f',
        ))
      × Stands (10 ∷ t.semaphores ++ (10 ∷ rest)) f'
read_fields-written w t rest f h at =
    let (c, s, e, solid, short) = name_first t.name h.name in
    let (f1, e1, at1) = scan_word-Stands c s _ f solid (subst (λ n. Stands (n ++ after) f) e at) in
    let (f2, e2, at2) = scan_int-Stands t.seg_flag _ f1 h.seg_flag at1 in
    let (f3, e3, at3) = scan_int-Stands t.priority _ f2 h.priority at2 in
    let (f4, e4, at4) = scan_int-Stands t.seg_size _ f3 h.seg_size at3 in
    (
      f4,
      fields_lem w f f1 f2 f3 f4 (c ∷ s) t.name _ _ _ e1 (header_name_lem c s short ∙ ap ok (sym e))
          e2 e3 e4,
      at4,
    )
  where
    after : List ℕ
    after =
        10 ∷ t.seg_flag
        ++ (10 ∷ t.priority ++ (10 ∷ t.seg_size ++ (10 ∷ t.semaphores ++ (10 ∷ rest))))

    name_first :
        (n : List ℕ)
        → IsName n
        → (c : ℕ) × (s : List ℕ) × (n ≡ c ∷ s) × Solid (c ∷ s) × (length (c ∷ s) ≤ 127)
    name_first [] h = absurd h
    name_first (c ∷ s) h = (c, s, refl, h.0, h.1)

header_lem :
    (w : Contents) (b : SyntBuffer) (sl sl' : SemaphoreList) (m m1 m' : Memory) (a c0 : ℕ)
    (h : SyntHeader) (f f' end : File) (names : List ℕ)
    → c_alloc 400 m ≡ ok (some a, m1)
    → read_fields w b.fp ≡ ok (h, f)
    → fgetc f ≡ (c0, f')
    → read_names (name_rounds f) w.waiters (fgetc f') [] sl m1 ≡ ok (names, end, sl', m')
    → read_header w b sl m
      ≡ ok (
        record b { fp = end; h = record h { semaphores = names; rw_count = 0 }; h_block = a },
        sl',
        m',
      )
unfolding read_header
header_lem w b sl sl' m m1 m' a c0 h f f' end names e1 e2 e3 e4 =
    rw (e1) (rw (e2) (rw (e3) (rw (e4) refl)))

-- With memory for the header, and its semaphores made one after the other, `read_header` on a
-- well-formed header reads back what is written, with no reads and writes counted, and stands
-- behind it.
pub read_header-written :
    (w : Contents) (b : SyntBuffer) (t : HeaderText) (rest : List ℕ) (sl sl' : SemaphoreList)
    (m m1 m' : Memory) (a : ℕ)
    → IsHeader t
    → Stands (written t rest) b.fp
    → c_alloc 400 m ≡ ok (some a, m1)
    → init_all w.waiters (unspaced t.semaphores) sl m1 ≡ ok (sl', m')
    → (end : File) × (read_header w b sl m
        ≡ ok (record b { fp = end; h = header_of t; h_block = a }, sl', m'))
      × Stands rest end
read_header-written w b t rest sl sl' m m1 m' a h at got run =
    let (f, fields, at1) = read_fields-written w t rest b.fp h at in
    let (f', skipped, at2) = fgetc-Stands 10 _ f at1 in
    let (end, names, at3) =
      read_names-line w.waiters t.semaphores rest [] (name_rounds f) f' sl sl' m1 m' h.semaphores
        at2 (enough f at1) (omega (arith, h.few)) run in
    (end, header_lem w b sl sl' m m1 m' a 10 _ f f' end _ got fields skipped names, at3)
  where
    enough :
        (f : File)
        → Stands (10 ∷ t.semaphores ++ (10 ∷ rest)) f
        → length t.semaphores < name_rounds f
    enough f (e, _) =
        subst (λ r. length t.semaphores < length r + 300) (sym e)
          (omega (arith, length-append t.semaphores (10 ∷ rest)))
