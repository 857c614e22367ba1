-- ===== src/Pipeline/Clustered.antt =====
-- A program that mem-record-rtmcluster.c records, and that is replayed from the logs that it leaves.
