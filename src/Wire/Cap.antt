-- ===== src/Wire/Cap.antt =====
-- What a receiver accepts from any peer, over any network.
use sync_clipboard.Prelude.{
  Bytes, ap, arith, length, ltb, not, refl, same, same_iff, some, sym, ℕ, ◌++◌, ◌<◌, ◌==◌, ◌^◌,
  ◌||◌, ◌∙◌, ◌≡◌, ◌≤◌,
}
use sync_clipboard.Net.{World, ask, recv_all, require}
use sync_clipboard.Net.Sound.{
  Asked, Ends, Ends-fail, Got, Kept, ask-Ends, bind-Ends, recv_all-Ends, require-Ends,
}
use sync_clipboard.Wire.{
  FtFileInfo, c_string, check_size, ft_magic, read_size, recv_body, recv_content, recv_file,
  recv_header, recv_id, recv_size, sized,
}

-- What passed the header's checks.
pub record Header (max_size : ℕ) (w : World) (got : Bytes × ℕ) (w' : World) : Type 0 where
  pub id_field : Bytes
  pub size_field : Bytes
  pub read : w.inbox ≡ ft_magic ++ (id_field ++ (size_field ++ w'.inbox))
  pub id_length : length id_field ≡ 36
  pub size_length : length size_field ≡ 8
  pub id_is : got.0 ≡ c_string id_field
  pub size_is : got.1 ≡ read_size 0 size_field
  pub size_pos : 0 < got.1
  pub size_le : got.1 ≤ max_size
  pub kept : Kept w w'

pub Kept-trans : {w w1 w2 : World} → Kept w w1 → Kept w1 w2 → Kept w w2
Kept-trans k l = record { outbox = l.outbox ∙ k.outbox; files = l.files ∙ k.files }

sized-Ends :
    (max_size : ℕ) (w0 : World) (id_field sb : Bytes) (w : World)
    → length id_field ≡ 36
    → length sb ≡ 8
    → w0.inbox ≡ ft_magic ++ (id_field ++ (sb ++ w.inbox))
    → Kept w0 w
    → Ends (Header max_size w0) (Kept w0) ⊥ (sized max_size id_field (read_size 0 sb) w)
unfolding sized check_size
sized-Ends max_size w0 id_field sb w l36 l8 e k =
    bind-Ends (λ _ w1. (w1 ≡ w) × (0 < read_size 0 sb) × (read_size 0 sb ≤ max_size)) _ _ _
      (require (not (read_size 0 sb == 0 || ltb max_size (read_size 0 sb))) w) _
      (require-Ends _ _ _ (not (read_size 0 sb == 0 || ltb max_size (read_size 0 sb))) w
        (λ ok. (refl, ground arith, ground arith)) k)
      (λ u w1 h. record {
        id_field = id_field;
        size_field = sb;
        read = rw (h.0) e;
        id_length = l36;
        size_length = l8;
        id_is = refl;
        size_is = refl;
        size_pos = h.1;
        size_le = h.2;
        kept = rw (h.0) k;
      })

recv_size-Ends :
    (max_size : ℕ) (w0 : World) (id_field : Bytes) (w : World)
    → length id_field ≡ 36
    → w0.inbox ≡ ft_magic ++ (id_field ++ w.inbox)
    → Kept w0 w
    → Ends (Header max_size w0) (Kept w0) ⊥ (recv_size max_size id_field w)
unfolding recv_size
recv_size-Ends max_size w0 id_field w l36 e k =
    bind-Ends (Got 8 w) _ _ _ (recv_all 8 w) _
      (Ends-fail (Got 8 w) (Kept w) (Kept w0) ⊥ _ (λ v. Kept-trans k)
        (recv_all-Ends 8 w (omega arith)))
      (λ sb w1 g.
        sized-Ends max_size w0 id_field sb w1 l36 g.size (e ∙ rw (g.read) refl)
          (Kept-trans k g.kept))

recv_id-Ends :
    (max_size : ℕ) (w0 w : World)
    → w0.inbox ≡ ft_magic ++ w.inbox
    → Kept w0 w
    → Ends (Header max_size w0) (Kept w0) ⊥ (recv_id max_size w)
unfolding recv_id
recv_id-Ends max_size w0 w e k =
    bind-Ends (Got 36 w) _ _ _ (recv_all 36 w) _
      (Ends-fail (Got 36 w) (Kept w) (Kept w0) ⊥ _ (λ v. Kept-trans k)
        (recv_all-Ends 36 w (omega arith)))
      (λ fid w1 g.
        recv_size-Ends max_size w0 fid w1 g.size (e ∙ rw (g.read) refl) (Kept-trans k g.kept))

pub recv_header-Ends :
    (max_size : ℕ) (w : World) → Ends (Header max_size w) (Kept w) ⊥ (recv_header max_size w)
unfolding recv_header
recv_header-Ends max_size w =
    bind-Ends (Got 4 w) _ _ _ (recv_all 4 w) _ (recv_all-Ends 4 w (omega arith)) (λ magic w1 g.
      bind-Ends (λ _ w2. (magic ≡ ft_magic) × (w2 ≡ w1)) _ _ _ (require (same magic ft_magic) w1) _
        (require-Ends _ _ _ (same magic ft_magic) w1 (λ ok. ((same_iff magic ft_magic).0 ok, refl))
          g.kept)
        (λ u w2 h. recv_id-Ends max_size w w2 (g.read ∙ rw (h.0, h.1) refl) (rw (h.1) g.kept)))

-- A file that was accepted into memory: the frame is all that was read.
pub record Accepted (max_size : ℕ) (w : World) (info : FtFileInfo) (w' : World) : Type 0 where
  pub id_field : Bytes
  pub size_field : Bytes
  pub body : Bytes
  pub read : w.inbox ≡ ft_magic ++ (id_field ++ (size_field ++ (body ++ w'.inbox)))
  pub id_is : info.file_id ≡ c_string id_field
  pub size_is : info.file_size ≡ read_size 0 size_field
  pub content_is : info.content ≡ some body
  pub length_is : length body ≡ info.file_size
  pub size_pos : 0 < info.file_size
  pub size_le : info.file_size ≤ max_size
  pub kept : Kept w w'

recv_content-Ends :
    (max_size fs : ℕ) (fid : Bytes) (w w1 w2 : World)
    → max_size < 2 ^ 31
    → Header max_size w (fid, fs) w1
    → Kept w w2
    → w2.inbox ≡ w1.inbox
    → Ends (Accepted max_size w) (Kept w) ⊥ (recv_content fid fs w2)
unfolding recv_content
recv_content-Ends max_size fs fid w w1 w2 small h k e =
    bind-Ends (Got fs w2) _ _ _ (recv_all fs w2) _
      (Ends-fail (Got fs w2) (Kept w2) (Kept w) ⊥ _ (λ v. Kept-trans k)
        (recv_all-Ends fs w2 (omega (arith, h.size_le))))
      (λ bs w3 g. record {
        id_field = h.id_field;
        size_field = h.size_field;
        body = bs;
        read = h.read ∙ ap (λ r. ft_magic ++ (h.id_field ++ (h.size_field ++ r))) (sym e ∙ g.read);
        id_is = h.id_is;
        size_is = h.size_is;
        content_is = refl;
        length_is = g.size;
        size_pos = h.size_pos;
        size_le = h.size_le;
        kept = Kept-trans k g.kept;
      })

-- `ft_recv_file` under a cap below 2 GiB, against any peer and any network: it stays inside what C
-- defines; a success has read one frame and nothing more, of the announced size, which is neither 0
-- nor above the cap; and it sends nothing and touches no file, whatever comes.
pub recv_file-Ends :
    (max_size : ℕ) (w : World)
    → max_size < 2 ^ 31
    → Ends (Accepted max_size w) (Kept w) ⊥ (recv_file max_size w)
unfolding recv_file recv_body
recv_file-Ends max_size w small =
    bind-Ends (Header max_size w) _ _ _ (recv_header max_size w) _ (recv_header-Ends max_size w)
      (λ got w1 h. bind-Ends (Asked w1) _ _ _ (ask w1) _ (ask-Ends _ ⊥ w1) (λ allocated w2 a.
        bind-Ends (λ _ w3. w3 ≡ w2) _ _ _ (require allocated w2) _
          (require-Ends _ _ _ allocated w2 (λ _. refl) (Kept-trans h.kept a.0))
          (λ u w3 e.
            recv_content-Ends max_size got.1 got.0 w w1 w3 small h (rw e (Kept-trans h.kept a.0))
              (rw e (a.1)))))
