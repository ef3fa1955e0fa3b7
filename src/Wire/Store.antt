-- ===== src/Wire/Store.antt =====
-- What `ft_recv_file_to_path` leaves on the disk, whatever the peer, the network and the system do.
use mathlib.Core.Option
use sync_clipboard.Prelude.{
  Bytes, Option, [], ap, append-nil, append_assoc, arith, false, inl, inr, length, length-append,
  min, none, refl, same, same_refl, some, suc, sym, zero, ℕ, ◌++◌, ◌-◌, ◌<◌, ◌==◌, ◌∙◌, ◌≡◌, ◌≤◌,
  ◌⊎◌,
}
use sync_clipboard.Net.{Files, Ret, World, ask, done, fail, recv_all, require, undefined, ◌>>=◌}
use sync_clipboard.Net.Sound.{
  Asked, Ends, Ends-fail, Ends-weaken, Got, Kept, ask-Ends, bind-Ends, recv_all-Ends, require-Ends,
}
use sync_clipboard.Wire.{
  FtFileInfo, c_string, close_file, closed_file, ft_chunk_size, ft_magic, open_write, read_size,
  recv_chunks, recv_file_to_path, recv_header, remove_unless_done, stream_body, update, write_chunk,
}
use sync_clipboard.Wire.Cap.{Header, Kept-trans, recv_header-Ends}

-- No file but the one at `path` has changed, and nothing was sent.
pub record Spared (path : Bytes) (w w' : World) : Type 0 where
  pub others : (q : Bytes) → same path q ≡ false → w'.files q ≡ w.files q
  pub outbox : w'.outbox ≡ w.outbox

-- The bytes `bs` came off the wire and stand in the file behind `written`.
pub record Appended (path written : Bytes) (n : ℕ) (w0 w w' : World) : Type 0 where
  pub bytes : Bytes
  pub stored : w'.files path ≡ some (written ++ bytes)
  pub size : length bytes ≡ n
  pub read : w.inbox ≡ bytes ++ w'.inbox
  pub spared : Spared path w0 w'

Spared-Kept : {path : Bytes} {w0 w w' : World} → Spared path w0 w → Kept w w' → Spared path w0 w'
Spared-Kept s k = record {
  others = λ q h. ap (λ f. f q) k.files ∙ s.others q h;
  outbox = k.outbox ∙ s.outbox;
}

Spared-refl : {path : Bytes} {w w' : World} → Kept w w' → Spared path w w'
Spared-refl k = record { others = λ q h. ap (λ f. f q) k.files; outbox = k.outbox }

Spared-update :
    {path : Bytes} {w0 w : World} (o : Option Bytes)
    → Spared path w0 w
    → Spared path w0 (record w { files = update w.files path o })
Spared-update o s = record { others = λ q h. rw h (s.others q h); outbox = s.outbox }

update_self : (files : Files) (path : Bytes) (o : Option Bytes) → update files path o path ≡ o
update_self files path o = rw (same_refl path)

write_chunk-Ends :
    (path written chunk : Bytes) (w0 w : World)
    → Spared path w0 w
    → Ends
        (λ out w'.
          (out ≡ written ++ chunk)
          × (w'.files path ≡ some out)
          × (w'.inbox ≡ w.inbox)
          × Spared path w0 w')
        (Spared path w0)
        ⊥
        (write_chunk path written chunk w)
unfolding write_chunk
write_chunk-Ends path written chunk w0 w s =
    bind-Ends (Asked w) _ _ _ (ask w) _ (ask-Ends _ ⊥ w) (λ allows w1 a.
      bind-Ends (λ _ w2. w2 ≡ w1) _ _ _ (require allows w1) _
        (require-Ends _ _ _ allows w1 (λ _. refl) (Spared-Kept s a.0))
        (λ u w2 e. (
          refl,
          update_self w2.files path (some (written ++ chunk)),
          rw e (a.1),
          Spared-update (some (written ++ chunk)) (rw e (Spared-Kept s a.0)),
        )))

recv_chunks-step :
    (fuel r : ℕ) (path written : Bytes)
    → let k = min ft_chunk_size (suc r) in
      recv_chunks (suc fuel) path (suc r) written ≡ (
        recv_all k >>= λ chunk.
        write_chunk path written chunk >>= λ written'. recv_chunks fuel path (suc r - k) written')
unfolding recv_chunks
recv_chunks-step fuel r path written =
    let e : (suc r == 0) ≡ false = ground arith in rw (e, recv_chunks)

Appended-more :
    {path written written' chunk : Bytes} {w0 w w1 w2 w' : World} (k n : ℕ)
    → k ≤ n
    → Got k w chunk w1
    → written' ≡ written ++ chunk
    → w2.inbox ≡ w1.inbox
    → Appended path written' (n - k) w0 w2 w'
    → Appended path written n w0 w w'
Appended-more {written} {chunk} k n h g is inbox a = record {
  bytes = chunk ++ a.bytes;
  stored =
      a.stored ∙ ap (λ b. some (b ++ a.bytes)) is ∙ ap some (append_assoc written chunk a.bytes);
  size = omega (arith, length-append chunk a.bytes, g.size, a.size);
  read = g.read ∙ ap (◌++◌ chunk) (sym inbox ∙ a.read) ∙ sym (append_assoc chunk a.bytes _);
  spared = a.spared;
}

recv_chunks-Ends :
    (fuel remaining : ℕ) (path written : Bytes) (w0 w : World)
    → remaining ≤ fuel
    → Spared path w0 w
    → w.files path ≡ some written
    → Ends
        (λ _. Appended path written remaining w0 w)
        (Spared path w0)
        ⊥
        (recv_chunks fuel path remaining written w)
recv_chunks-Ends zero zero path written w0 w h s e =
    unfold recv_chunks in
    record { bytes = []; stored = rw append-nil e; size = refl; read = refl; spared = s }
recv_chunks-Ends zero (suc r) path written w0 w h s e = absurd (omega arith)
recv_chunks-Ends (suc fuel) zero path written w0 w h s e =
    unfold recv_chunks in
    record { bytes = []; stored = rw append-nil e; size = refl; read = refl; spared = s }
recv_chunks-Ends (suc fuel) (suc r) path written w0 w h s e =
    let k : ℕ = min ft_chunk_size (suc r) in
    rw recv_chunks-step (
      bind-Ends (Got k w) _ _ _ (recv_all k w) _
        (Ends-fail (Got k w) (Kept w) (Spared path w0) ⊥ _ (λ v. Spared-Kept s)
          (recv_all-Ends k w (omega arith)))
        (λ chunk w1 g.
          bind-Ends _ _ _ _ (write_chunk path written chunk w1) _
            (write_chunk-Ends path written chunk w0 w1 (Spared-Kept s g.kept))
            (λ written' w2 (is, now_holds, inbox, s2).
              Ends-weaken (λ _. Appended path written' (suc r - k) w0 w2)
                (λ _. Appended path written (suc r) w0 w) (Spared path w0) ⊥
                (recv_chunks fuel path (suc r - k) written' w2)
                (λ _ w'. Appended-more k (suc r) (omega arith) g is inbox)
                (recv_chunks-Ends fuel (suc r - k) path written' w0 w2 (omega arith) s2
                  now_holds))))

-- A failed transfer leaves the file as it was, or removed, or, if the chunk buffer could not be
-- allocated, empty.
abbrev pub IsClean : Option Bytes → Option Bytes → Type 0
IsClean before now = (now ≡ before) ⊎ ((now ≡ none) ⊎ (now ≡ some []))

abbrev pub Cleaned : Bytes → World → World → Type 0
Cleaned path w w' = Spared path w w' × IsClean (w.files path) (w'.files path)

-- A transfer that succeeded: the announced number of bytes came behind the header in this order, and the
-- file holds what `fclose` could write of them.
pub record Stored (lost : Option ℕ) (max_size : ℕ) (path : Bytes) (w : World) (info : FtFileInfo)
    (w' : World) : Type 0 where
  pub id_field : Bytes
  pub size_field : Bytes
  pub body : Bytes
  pub read : w.inbox ≡ ft_magic ++ (id_field ++ (size_field ++ (body ++ w'.inbox)))
  pub id_is : info.file_id ≡ c_string id_field
  pub size_is : info.file_size ≡ read_size 0 size_field
  pub stored : w'.files path ≡ some (closed_file lost body)
  pub length_is : length body ≡ info.file_size
  pub size_pos : 0 < info.file_size
  pub size_le : info.file_size ≤ max_size
  pub spared : Spared path w w'

remove_unless_done-Ends :
    (path : Bytes) (w : World) (P : Unit {0} → World → Type 0) (r : Ret (Unit {0}) × World)
    → Ends P (Spared path w) ⊥ r
    → Ends P (Cleaned path w) ⊥ (remove_unless_done path r)
unfolding remove_unless_done
remove_unless_done-Ends path w P (done u, w1) h = h
remove_unless_done-Ends path w P (fail, w1) h =
    (Spared-update none h, inr (inl (update_self w1.files path none)))
remove_unless_done-Ends path w P (undefined, w1) h = h

open_write-Ends :
    (path : Bytes) (w0 w : World)
    → Kept w0 w
    → Ends
        (λ _ w'. (w'.files path ≡ some []) × (w'.inbox ≡ w.inbox) × Spared path w0 w')
        (Cleaned path w0)
        ⊥
        (open_write path w)
unfolding open_write
open_write-Ends path w0 w k = bind-Ends (Asked w) _ _ _ (ask w) _ (ask-Ends _ ⊥ w) (λ allows w1 a.
    let kept : Kept w0 w1 = Kept-trans k a.0 in
    bind-Ends (λ _ w2. w2 ≡ w1) _ _ _ (require allows w1) _
      (require-Ends _ _ _ allows w1 (λ _. refl)
        (Spared-refl kept, inl (ap (λ f. f path) kept.files)))
      (λ u w2 e.
        let kept2 : Kept w0 w2 = rw e kept in
        (
          update_self w2.files path (some []),
          rw e (a.1),
          Spared-update (some []) (Spared-refl kept2),
        )))

stream_body-Ends :
    (lost : Option ℕ) (max_size : ℕ) (path : Bytes) (got : Bytes × ℕ) (w0 w1 w2 : World)
    → Header max_size w0 got w1
    → w2.files path ≡ some []
    → w2.inbox ≡ w1.inbox
    → Spared path w0 w2
    → Ends (Stored lost max_size path w0) (Cleaned path w0) ⊥ (stream_body lost path got w2)
unfolding stream_body close_file
stream_body-Ends lost max_size path got w0 w1 w2 h now_holds inbox s =
    bind-Ends (λ _. Appended path [] got.1 w0 w2) _ _ _
      (remove_unless_done path (recv_chunks got.1 path got.1 [] w2)) _
      (remove_unless_done-Ends path w0 (λ _. Appended path [] got.1 w0 w2)
        (recv_chunks got.1 path got.1 [] w2)
        (recv_chunks-Ends got.1 got.1 path [] w0 w2 (omega arith) s now_holds))
      (λ u w' a. record {
        id_field = h.id_field;
        size_field = h.size_field;
        body = a.bytes;
        read =
            h.read ∙ ap (λ r. ft_magic ++ (h.id_field ++ (h.size_field ++ r))) (sym inbox ∙ a.read);
        id_is = h.id_is;
        size_is = h.size_is;
        stored =
            update_self w'.files path (Option.map (closed_file lost) (w'.files path))
            ∙ ap (Option.map (closed_file lost)) a.stored;
        length_is = a.size;
        size_pos = h.size_pos;
        size_le = h.size_le;
        spared = Spared-update (Option.map (closed_file lost) (w'.files path)) a.spared;
      })

-- `ft_recv_file_to_path`, against any peer, network and system, always stays inside what C defines.
-- On success the announced bytes were read, 1 to `max_size` of them, and nothing else, and the file holds
-- them, if `fclose` could write all; else it holds the first of them only, and the result is a success all
-- the same.
-- On failure the file at the path is as before, gone, or empty (`remove` is taken to succeed). No
-- other file changes, and nothing is sent.
pub recv_file_to_path-Ends :
    (lost : Option ℕ) (max_size : ℕ) (path : Bytes) (w : World)
    → Ends (Stored lost max_size path w) (Cleaned path w) ⊥ (recv_file_to_path lost max_size path w)
unfolding recv_file_to_path
recv_file_to_path-Ends lost max_size path w =
    bind-Ends (Header max_size w) _ _ _ (recv_header max_size w) _
      (Ends-fail (Header max_size w) (Kept w) (Cleaned path w) ⊥ (recv_header max_size w)
        (λ v k. (Spared-refl k, inl (ap (λ f. f path) k.files))) (recv_header-Ends max_size w))
      (λ got w1 h.
        bind-Ends _ _ _ _ (open_write path w1) _ (open_write-Ends path w w1 h.kept) (λ u w2 o.
          bind-Ends (Asked w2) _ _ _ (ask w2) _ (ask-Ends _ ⊥ w2) (λ allocated w3 a.
            let now_holds : w3.files path ≡ some [] = ap (λ f. f path) a.0.files ∙ o.0 in
            let s : Spared path w w3 = Spared-Kept o.2 a.0 in
            bind-Ends (λ _ w4. w4 ≡ w3) _ _ _ (require allocated w3) _
              (require-Ends _ _ _ allocated w3 (λ _. refl) (s, inr (inr now_holds)))
              (λ u' w4 e.
                stream_body-Ends lost max_size path got w w1 w4 h (rw e now_holds)
                  (rw e (a.1 ∙ o.1)) (rw e s)))))
