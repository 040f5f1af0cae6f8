-- ===== src/Sftp/Requests/Prefigured.antt =====
-- sftp.cc: exists() tells what the server says of a path, whatever was asked for before.
use hbackup.Prelude.{
  ℕ, suc, ◌≡◌, inl, inr, ◌⊎◌, refl, sym, ap, subst, ◌∙◌, [], ◌∷◌, ◌++◌, List, Bool, true, Option,
  none, some, get_or, Bytes, bytes_eq, ◌==◌,
}
use hbackup.Prelude.Dict
use hbackup.Prelude.Dict.{Dict}
use hbackup.Outcome.{ok}
use hbackup.Sftp.Replies.{newid}
use hbackup.Sftp.Wire.{pack_uint8, pack_uint32, pack_string}
use hbackup.Sftp.Transport.{Transport, Server, Continues, IsTransport}
use hbackup.Sftp.Transport.Laws.{Continues-trans, Continues-weaken, Continues-refl}
use hbackup.Sftp.Requests.{Client, on_link, fresh_id, path_request}
use hbackup.Sftp.Requests.Simple.{init_lem, command_lem}
use hbackup.Sftp.Requests.Existence.{prefigure_exists, take_inflight, or_again, exists}
use hbackup.Sftp.Requests.Cached.{
  InFlight, AskedFor, InFlight-append, IsTrue, Covered, IsTrue-insert, IsTrue-erase, Covered-insert,
}

module _ (T : Transport) (S : Server T) (L : IsTransport T S) (present : Bytes → Bool) where
  open S use {Up, Answers, output}

  -- The server answers a STAT of the path with attributes exactly if the path is there.
  pub record Tells (l : T.State) (id : ℕ) (path : Bytes) : Type 0 where
    pub reply : Bytes
    pub answers : Answers l id reply
    pub truth : (get_or reply 0 0 == 105) ≡ present path

  abbrev pub AllTell : T.State → List (ℕ × Bytes) → Type 0
  AllTell l [] = Unit
  AllTell l ((id, path) ∷ rest) = Tells l id path × (¬ InFlight id rest) × AllTell l rest

  AllTell-keeps :
      (l l' : T.State) (es : List (ℕ × Bytes)) (G : ℕ → Type 0)
      → ((j : ℕ) (r : Bytes) → ¬ G j → Answers l j r → Answers l' j r)
      → ((j : ℕ) → InFlight j es → ¬ G j)
      → AllTell l es
      → AllTell l' es
  AllTell-keeps l l' [] G k n h = tt
  AllTell-keeps l l' ((id, path) ∷ rest) G k n (t, fresh, h) = (
    record { reply = t.reply; answers = k id t.reply (n id (inl refl)) t.answers; truth = t.truth },
    fresh,
    AllTell-keeps l l' rest G k (λ j i. n j (inr i)) h,
  )

  -- What the loop of exists() leaves.
  pub record Took (es : List (ℕ × Bytes)) (c c' : Client T) : Type 0 where
    pub same_id : c'.id ≡ c.id
    pub none_left : c'.existence_inflight ≡ []
    pub true_cache : IsTrue present c'.existence
    pub covers :
        (p : Bytes) → Covered p es c.existence → (b : Bool) × (Dict.lookup p c'.existence ≡ some b)
    pub goes : Continues T S c.link [] (λ j. InFlight j es) c'.link

  take_inflight_lem :
      (es : List (ℕ × Bytes)) (c : Client T)
      → c.existence_inflight ≡ es
      → Up c.link
      → IsTrue present c.existence
      → AllTell c.link es
      → (c' : Client T) × (take_inflight T es c ≡ (ok tt, c')) × Took es c c'
  unfolding take_inflight on_link
  take_inflight_lem [] c alike u cached h = (
    c,
    refl,
    record {
      same_id = refl;
      none_left = alike;
      true_cache = cached;
      covers = λ p x. elim x [ inl k ↦ k | inr e ↦ absurd e ];
      goes = Continues-weaken T S refl (λ j g. g) (Continues-refl T S u);
    },
  )
  take_inflight_lem ((id, path) ∷ rest) c alike u cached (t, fresh, h) =
      let (l, q, go) = L.awaits id t.reply c.link u t.answers in
      let c1 = record c {
        link = l;
        existence = Dict.insert path (get_or t.reply 0 0 == 105) c.existence;
        existence_inflight = rest;
      } in
      let (c2, q2, took) =
        take_inflight_lem rest c1 refl go.up
          (rw t.truth (IsTrue-insert present path c.existence cached))
          (AllTell-keeps c.link l rest (λ j. j ≡ id) go.answers
            (λ j i e. fresh (subst (λ k. InFlight k rest) e i)) h) in
      (
        c2,
        rw q q2,
        record {
          same_id = took.same_id;
          none_left = took.none_left;
          true_cache = took.true_cache;
          covers = λ p x. took.covers p (Covered-insert p id path _ rest c.existence x);
          goes = Continues-weaken T S refl (λ j g. g) (Continues-trans T S go took.goes);
        },
      )

  -- SSH_FXP_STAT of a path.
  abbrev pub stat_packet : ℕ → Bytes → Bytes
  stat_packet id path = pack_string (pack_uint32 (pack_uint8 [] 17) id) path

  -- What is cached is true, and what is in flight will be.
  pub record IsHonest (c : Client T) : Type 0 where
    pub is_connected : T.connected c.link ≡ true
    pub up : Up c.link
    pub true_cache : IsTrue present c.existence
    pub all_tell : AllTell c.link c.existence_inflight

  -- If what is sent next is a STAT of the path under the next ID, and nothing else, then it is
  -- answered, whatever other replies are taken meanwhile. That ID is not yet in flight.
  pub record IsNext (c : Client T) (path : Bytes) : Type 1 where
    pub tells :
        (l : T.State) (Gone : ℕ → Type 0)
        → ¬ Gone (newid c.id).0
        → Continues T S c.link (pack_string [] (stat_packet (newid c.id).0 path)) Gone l
        → Tells l (newid c.id).0 path
    pub unused : ¬ InFlight (newid c.id).0 c.existence_inflight

  AllTell-append :
      (l : T.State) (es : List (ℕ × Bytes)) (id : ℕ) (path : Bytes)
      → AllTell l es
      → Tells l id path
      → ¬ InFlight id es
      → AllTell l (es ++ (id, path) ∷ [])
  AllTell-append l [] id path h t n = (t, λ x. x, tt)
  AllTell-append l ((j, p) ∷ es) id path (u, fresh, h) t n = (
    u,
    λ i. elim (InFlight-append j id path es i) [ inl k ↦ fresh k | inr e ↦ n (inl (sym e)) ],
    AllTell-append l es id path h t (λ i. n (inr i)),
  )

  -- What is prefigured is in flight, and all stays true.
  pub prefigure_exists-IsHonest :
      (path : Bytes) (c : Client T)
      → IsHonest c
      → IsNext c path
      → (c' : Client T) × (prefigure_exists T path c ≡ (ok tt, c'))
        × IsHonest c'
        × (c'.existence_inflight ≡ c.existence_inflight ++ ((newid c.id).0, path) ∷ [])
        × (c'.existence ≡ c.existence)
  unfolding prefigure_exists fresh_id path_request
  prefigure_exists-IsHonest path c v n =
      let id = (newid c.id).0 in
      let (l, q, go) =
        command_lem T S L (path_request 17 id path) (record c { id = (newid c.id).1 }) v.up in
      let keeps = go.answers in
      (
        record c {
          link = l;
          id = (newid c.id).1;
          existence_inflight = c.existence_inflight ++ (id, path) ∷ [];
        },
        rw (init_lem T S L c v.is_connected, q) refl,
        record {
          is_connected = go.is_connected ∙ v.is_connected;
          up = go.up;
          true_cache = v.true_cache;
          all_tell =
              AllTell-append l c.existence_inflight id path
                (AllTell-keeps c.link l c.existence_inflight (λ _. ⊥) keeps (λ j i x. x) v.all_tell)
                (n.tells l (λ _. ⊥) (λ x. x) go) n.unused;
        },
        refl,
        refl,
      )

  -- A round of exists() that finds the path in the cache.
  exists_hit :
      (fuel : ℕ) (path : Bytes) (b : Bool) (c c1 : Client T)
      → T.connected c.link ≡ true
      → take_inflight T c.existence_inflight c ≡ (ok tt, c1)
      → Dict.lookup path c1.existence ≡ some b
      → exists T (suc fuel) path c ≡ (ok b, record c1 { existence = Dict.erase path c1.existence })
  unfolding exists or_again
  exists_hit fuel path b c c1 e q h = rw (init_lem T S L c e, q) (rw h refl)

  exists_miss :
      (fuel : ℕ) (path : Bytes) (c c1 c2 : Client T)
      → T.connected c.link ≡ true
      → take_inflight T c.existence_inflight c ≡ (ok tt, c1)
      → Dict.lookup path c1.existence ≡ none
      → prefigure_exists T path c1 ≡ (ok tt, c2)
      → exists T (suc fuel) path c ≡ exists T fuel path c2
  unfolding exists or_again
  exists_miss fuel path c c1 c2 e q h p = rw (init_lem T S L c e, q) (rw (h, p) refl)

  -- exists() has told the truth, and left only truth.
  abbrev Told : ℕ → Bytes → Client T → Type 0
  Told fuel path c =
      (c' : Client T) × (exists T fuel path c ≡ (ok (present path), c'))
      × IsHonest c'
      × (c'.existence_inflight ≡ [])

  Took-IsHonest :
      (es : List (ℕ × Bytes)) (c c1 : Client T) (d : Dict Bytes Bool)
      → T.connected c.link ≡ true
      → Took es c c1
      → IsTrue present d
      → IsHonest (record c1 { existence = d })
  Took-IsHonest es c c1 d e took h = record {
    is_connected = took.goes.is_connected ∙ e;
    up = took.goes.up;
    true_cache = h;
    all_tell = subst (AllTell c1.link) (sym took.none_left) tt;
  }

  exists_cached :
      (fuel : ℕ) (path : Bytes) (b : Bool) (c c1 : Client T)
      → T.connected c.link ≡ true
      → take_inflight T c.existence_inflight c ≡ (ok tt, c1)
      → Took c.existence_inflight c c1
      → Dict.lookup path c1.existence ≡ some b
      → Told (suc fuel) path c
  exists_cached fuel path b c c1 e q took h = (
    record c1 { existence = Dict.erase path c1.existence },
    exists_hit fuel path b c c1 e q h
        ∙ ap (λ x. (ok x, record c1 { existence = Dict.erase path c1.existence }))
            (took.true_cache path b h),
    Took-IsHonest c.existence_inflight c c1 _ e took
        (IsTrue-erase present path c1.existence took.true_cache),
    took.none_left,
  )

  -- Once the path is asked for.
  exists_asked :
      (fuel : ℕ) (path : Bytes) (id : ℕ) (c : Client T)
      → IsHonest c
      → c.existence_inflight ≡ (id, path) ∷ []
      → Told (suc fuel) path c
  exists_asked fuel path id c v e =
      let (c1, q, took) =
        take_inflight_lem c.existence_inflight c refl v.up v.true_cache v.all_tell in
      let (b, h) = took.covers path (inr (subst (AskedFor path) (sym e) (inl refl))) in
      exists_cached fuel path b c c1 v.is_connected q took h

  -- Whatever is cached or in flight, exists() returns what the server says of the path, and what it
  -- leaves in the cache is as true as what was there; nothing is left in flight. A fuel of 2 is
  -- enough. The client is connected, its cache is true, the requests in flight are answered with
  -- attributes exactly if their paths are there, no two of them share an ID, and the server answers a
  -- STAT of the path in the same way, if that is what is sent next.
  pub exists-present :
      (fuel : ℕ) (path : Bytes) (c : Client T)
      → IsHonest c
      → IsNext c path
      → (c' : Client T) × (exists T (suc (suc fuel)) path c ≡ (ok (present path), c'))
        × IsHonest c'
        × (c'.existence_inflight ≡ [])
  exists-present fuel path c v n =
      let (c1, q, took) =
        take_inflight_lem c.existence_inflight c refl v.up v.true_cache v.all_tell in
      by_cache c1 q took (Dict.lookup path c1.existence) refl
    where
      by_cache :
          (c1 : Client T)
          → take_inflight T c.existence_inflight c ≡ (ok tt, c1)
          → Took c.existence_inflight c c1
          → (o : Option Bool) → Dict.lookup path c1.existence ≡ o
          → Told (suc (suc fuel)) path c
      by_cache c1 q took (some b) h = exists_cached (suc fuel) path b c c1 v.is_connected q took h
      by_cache c1 q took none h =
          let same_id : (newid c1.id).0 ≡ (newid c.id).0 = ap (λ i. (newid i).0) took.same_id in
          let asked : IsNext c1 path = record {
            tells = λ l Gone fresh go.
                subst (λ i. Tells l i path) (sym same_id)
                  (n.tells l (λ k. InFlight k c.existence_inflight ⊎ Gone k)
                    (λ g. elim g [
                      | inl i ↦ n.unused i
                      | inr x ↦ fresh (subst Gone (sym same_id) x)
                    ])
                    (subst
                      (λ i.
                        Continues T S c.link (pack_string [] (stat_packet i path))
                          (λ k. InFlight k c.existence_inflight ⊎ Gone k) l)
                      same_id (Continues-trans T S took.goes go)));
            unused = λ i. subst (InFlight (newid c1.id).0) took.none_left i;
          } in
          let (c2, p, honest, inflight, cached) =
            prefigure_exists-IsHonest path c1
              (Took-IsHonest c.existence_inflight c c1 c1.existence v.is_connected took
                took.true_cache)
              asked in
          let (c3, q3, honest3, none_left) =
            exists_asked fuel path (newid c1.id).0 c2 honest
              (inflight ∙ ap (λ es. es ++ ((newid c1.id).0, path) ∷ []) took.none_left) in
          (c3, exists_miss (suc fuel) path c c1 c2 v.is_connected q h p ∙ q3, honest3, none_left)
