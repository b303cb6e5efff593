-- ===== src/Rpc/Client/Deadlines.antt =====
-- packages/rpc/src/engineClient.ts: the deadline of a request stands still while prompts are open.
use gitglasses.Base.{Bool, ◌-◌, ◌+◌, List, ℕ, refl, [], ◌∷◌, true, false, some, ◌≡◌, arith}
use gitglasses.Rpc.Client.Requests.{arm, resume, resume_deadline, pause, pause_deadline}
use gitglasses.Rpc.Client.State.{update, Pending, Client, find}

find-update :
    {A : Type 0} (id : ℕ) (f : A → A) (m : List (ℕ × A)) (v : A)
    → find id m ≡ some v
    → find id (update id f m) ≡ some (f v)
find-update id f [] v h = cc
find-update id f ((k, w) ∷ m) v h = ground (arith, find-update id f m v)

-- Two prompts of one request, the second opened before the first is answered.
StandsStill : (t1 t2 t3 t4 : ℕ) → Pending → Type 0
StandsStill t1 t2 t3 t4 p =
    let q = resume t3 (pause t2 (pause t1 p)) in
    let r = resume t4 q in
    (q.armed ≡ false) × (r.armed ≡ true) × (r.deadline ≡ t4 + (p.deadline - t1))

running-StandsStill :
    (t1 t2 t3 t4 : ℕ) (p : Pending) (armed : Bool) (pauses : ℕ)
    → armed ≡ true
    → pauses ≡ 0
    → StandsStill t1 t2 t3 t4 (record p { armed = armed; pauses = pauses })
unfolding StandsStill pause resume arm
running-StandsStill t1 t2 t3 t4 p armed pauses a z = rw (a, z) (refl, refl, refl)

-- While a prompt is open for a request whose deadline runs, and a second prompt joins it, the deadline
-- stands still: it does not run when one of them is answered, and when the other is answered too, the
-- time that was left when the first was opened is left again.
pub resume_deadline-pause_deadline :
    (t1 t2 t3 t4 id : ℕ) (c : Client) (p : Pending)
    → find id c.pending ≡ some p
    → p.armed ≡ true
    → p.pauses ≡ 0
    → let (c1, _) = pause_deadline t1 id c in
      let (c2, _) = pause_deadline t2 id c1 in
      let (c3, _) = resume_deadline t3 id c2 in
      let (c4, _) = resume_deadline t4 id c3 in
      (q : Pending) × (r : Pending) × (find id c3.pending ≡ some q)
      × (find id c4.pending ≡ some r)
      × (q.armed ≡ false)
      × (r.armed ≡ true)
      × (r.deadline ≡ t4 + (p.deadline - t1))
unfolding pause_deadline resume_deadline StandsStill
resume_deadline-pause_deadline t1 t2 t3 t4 id c p h a z =
    let p1 = pause t1 p in
    let p2 = pause t2 p1 in
    let p3 = resume t3 p2 in
    let p4 = resume t4 p3 in
    let m1 = update id (pause t1) c.pending in
    let m2 = update id (pause t2) m1 in
    let m3 = update id (resume t3) m2 in
    let h1 : find id m1 ≡ some p1 = find-update id (pause t1) c.pending p h in
    let h2 : find id m2 ≡ some p2 = find-update id (pause t2) m1 p1 h1 in
    let h3 : find id m3 ≡ some p3 = find-update id (resume t3) m2 p2 h2 in
    let h4 : find id (update id (resume t4) m3) ≡ some p4 = find-update id (resume t4) m3 p3 h3 in
    let (still, running, left) = running-StandsStill t1 t2 t3 t4 p p.armed p.pauses a z in
    (p3, p4, h3, h4, still, running, left)
