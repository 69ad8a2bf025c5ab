-- ===== src/Native/Inbox/Receive/Unwritten.antt =====
-- The arms of the listener that do not touch the file of the workplace.
use capsi.Base.{ℕ, ◌≡◌, refl, inl, inr, List, ◌++◌, arith, take, Text, Result-cases}
use capsi.Base.Maps.{insert}
use capsi.Protocol.Message.{TextMessage, FileOffer, FileReceipt}
use capsi.Identity.Keys.{Primitives}
use capsi.Identity.Trust.{KnownDevice}
use capsi.Native.Inbox.{DataDir, Arrival}
use capsi.Native.Inbox.Texts.{take_text}
use capsi.Native.Inbox.Files.{
  Chunk, make_temp, take_offer, admit_chunk, finish_file, write_chunk, take_chunk,
  take_file_receipt,
}

module _ (p : Primitives) (a : Arrival) (dir : DataDir) where
  pub disk-take_text :
      (t : TextMessage) (known : KnownDevice) → (take_text a t known dir).data_dir.disk ≡ dir.disk
  unfolding take_text
  disk-take_text t known = ground arith

  pub disk-take_offer :
      (offer : FileOffer) (known : KnownDevice)
      → (take_offer p a offer known dir).data_dir.disk ≡ dir.disk
  unfolding take_offer make_temp
  disk-take_offer offer known = ground arith

  disk-finish_file :
      (transfer_id : Text) (c : Chunk) (written : List ℕ)
      → (finish_file p a transfer_id c written dir).data_dir.disk ≡ dir.disk
  unfolding finish_file
  disk-finish_file transfer_id c written = ground arith

module _ (p : Primitives) (a : Arrival) (dir : DataDir) where
  disk-write_chunk :
      (transfer_id : Text) (c : Chunk)
      → (write_chunk p a transfer_id c dir).data_dir.disk ≡ dir.disk
  unfolding write_chunk
  disk-write_chunk transfer_id c =
      let written = c.present ++ take (a.fs.room c.path) c.raw in
      let dir' = record dir { files = insert c.path written dir.files } in
      ground (arith, disk-finish_file p a dir' transfer_id c written)

  pub disk-take_chunk :
      (transfer_id : Text) (index : ℕ) (digest chunk : Text)
      → (take_chunk p a transfer_id index digest chunk dir).data_dir.disk ≡ dir.disk
  unfolding take_chunk
  disk-take_chunk transfer_id index digest chunk =
      elim (Result-cases (admit_chunk p a transfer_id index digest chunk dir)) [
        | inr (e, refused) ↦ rw (refused, take_chunk) refl
        | inl (c, admitted) ↦ rw (admitted, take_chunk) (disk-write_chunk transfer_id c)
      ]

  pub disk-take_file_receipt :
      (transfer_id : Text) (state : FileReceipt)
      → (take_file_receipt p a transfer_id state dir).data_dir.disk ≡ dir.disk
  unfolding take_file_receipt
  disk-take_file_receipt transfer_id state = ground arith
