-- ===== src/Native/Inbox/Files/Receipts.antt =====
-- What a receipt for a file does to the record of the transfer.
use capsi.Storage.Conversation.{Conversation}
