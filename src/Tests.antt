-- ===== src/Tests.antt =====
-- Runs of the model on concrete inputs, by component.
mod Ib
mod Iov
mod Crc
mod Resource
mod Net
mod Port
mod Sge
mod Mr
mod Pd
mod Qp
mod Requester
mod Queues
mod Responder
mod Device
mod Context
mod Ended
