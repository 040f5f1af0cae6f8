-- ===== src/Sftp/Transfers/Answers.antt =====
-- sftp.cc: the answers to the reads of SftpFile, as readbytes() takes them apart.
use Prim.Native.Nat.{◌<◌}
use hbackup.Prelude.{
  ℕ, zero, suc, ◌+◌, ◌≡◌, refl, sym, ap, ◌∙◌, [], ◌∷◌, append-nil, true, length, take, get_or,
  Bytes, arith,
}
use hbackup.Outcome.{ok}
use hbackup.Sftp.Wire.{word_size, pack_uint8, pack_uint32, pack_string, unpack_string}
use hbackup.Sftp.Wire.Laws.{unpack_string-pack_string, pack_status, IsStatus}
use hbackup.Sftp.Check.{check, status_reply, check-status_reply}
use hbackup.Sftp.Requests.{path_request}
use hbackup.Sftp.Transfers.Ahead.{at_end, data_reply}

pub at_end-IsStatus : IsStatus at_end
at_end-IsStatus = record { status = omega arith; message = omega arith; lang = omega arith }

pub data_reply-check : (id : ℕ) → id < word_size → check (data_reply id []) true ≡ ok tt
unfolding data_reply
data_reply-check id small =
    ap (λ b. check b true) (sym (append-nil (status_reply id at_end)))
    ∙ check-status_reply id at_end [] true small at_end-IsStatus

pub data_reply-unpack_string :
    (id c : ℕ) (chunk : Bytes)
    → length (c ∷ chunk) < word_size
    → (i : ℕ) × (unpack_string (data_reply id (c ∷ chunk)) 5 ≡ ok (c ∷ chunk, i))
unfolding data_reply path_request
data_reply-unpack_string id c chunk small =
    let head = pack_uint32 (pack_uint8 [] 103) id in
    let five : length head ≡ 5 = unfold pack_uint32 pack_uint8 in refl in
    let e = unpack_string-pack_string head [] (c ∷ chunk) small in
    (
      length head + 4 + length (c ∷ chunk),
      ap (λ n. unpack_string (pack_string head (c ∷ chunk)) n) (sym five)
          ∙ ap (λ b. unpack_string b (length head)) (sym (append-nil _))
          ∙ e,
    )

pub data_reply-type_data : (id c : ℕ) (chunk : Bytes) → get_or (data_reply id (c ∷ chunk)) 0 0 ≡ 103
unfolding data_reply path_request pack_string pack_uint32 pack_uint8
data_reply-type_data id c chunk = refl

pub data_reply-type_end : (id : ℕ) → get_or (data_reply id []) 0 0 ≡ 101
unfolding data_reply status_reply pack_status pack_string pack_uint32 pack_uint8
data_reply-type_end id = refl

pub take-nil : (n : ℕ) (s : Bytes) → 0 < n → take n s ≡ [] → s ≡ []
take-nil zero s h e = absurd (omega arith)
take-nil (suc n) [] h e = refl
take-nil (suc n) (c ∷ s) h e = cc
